-- ===== src/Subscription/Publishing.antt =====
-- Who is notified of a new value.
use mathlib.Core.List.{append-nil}
use kuksa_val.Channel.{KuksaChannel}
use kuksa_val.Exception.{ok, >>=-eq-ok, ok-injective}
use kuksa_val.External.{BoostText}
use kuksa_val.Json.{Json}
use kuksa_val.Path.{VssPath, from_vss, gen1_to_gen2}
use kuksa_val.Path.Spelling.{vsspath-from_vss}
use kuksa_val.Prelude.{
  ℕ, String, ◌≡◌, refl, sym, ap, ◌∙◌, inl, inr, Option, none, some, List, [], ◌∷◌, ◌++◌, map,
  Member, first, later, ◌==◌, Bool-cases,
}
use kuksa_val.Subscription.State.{
  key_of, Subscriptions, Notification, Handler, Guards, put_subscription, put_key, push_all,
  member_of, notify, subscribe_guards, subscribe, publish,
}
use kuksa_val.Subscription.Tables.{
  listed, subscribers, subscribers-put_key, same_key_refl, IsTable, put_key-IsTable,
}

push_all-listed :
    (o : Option Subscriptions) (datatype : String) (payload : Json) (buffer : List Notification)
    → push_all o datatype payload buffer ≡ buffer ++ map (notify datatype payload) (listed o)
unfolding push_all
push_all-listed none datatype payload buffer = sym (append-nil buffer)
push_all-listed (some subs) datatype payload buffer = refl

-- What one call of publish does to the parts of the handler that the worker and clients see.
pub record Published (path : VssPath) (datatype attribute : String) (payload : Json)
    (h h' : Handler) : Type 0 where
  pub table : h'.subscriptions ≡ h.subscriptions
  pub queued :
      h'.buffer
      ≡ h.buffer
        ++ map (notify datatype payload) (subscribers (key_of path attribute) h.subscriptions)

-- A publication that does not throw leaves the table of subscriptions as it is, and appends one
-- notification to the queue for each subscription to its path and attribute, in their order.
pub publish-Published :
    (path : VssPath) (datatype attribute : String) (payload : Json) (h h' : Handler)
    → publish path datatype attribute payload h ≡ ok h'
    → Published path datatype attribute payload h h'
unfolding publish
publish-Published path datatype attribute payload h h' e =
    let (dp, _, e₁) = >>=-eq-ok (member_of "dp" payload) _ e in
    let (value, _, e₂) = >>=-eq-ok (member_of attribute dp) _ e₁ in
    let same = ok-injective e₂ in
    record {
      table = sym (ap (λ (x : Handler). x.subscriptions) same);
      queued =
          sym (ap (λ (x : Handler). x.buffer) same) ∙ push_all-listed _ datatype payload h.buffer;
    }

Member-map :
    {A B : Type 0} (f : A → B) {a : A} {xs : List A} → Member a xs → Member (f a) (map f xs)
Member-map f first = first
Member-map f (later m) = later (Member-map f m)

Member-append : {A : Type 0} {a : A} (xs : List A) {ys : List A} → Member a ys → Member a (xs ++ ys)
Member-append [] m = m
Member-append (x ∷ xs) m = later (Member-append xs m)

put_subscription-Member :
    (id : ℕ) (channel : KuksaChannel) (subs : Subscriptions)
    → Member (id, channel) (put_subscription id channel subs)
unfolding put_subscription
put_subscription-Member id channel [] = first
put_subscription-Member id channel ((i, c) ∷ subs) = elim (Bool-cases (i == id)) [
  | inl e ↦ rw e first
  | inr e ↦ rw e (later (put_subscription-Member id channel subs))
]

module _ ⦃B : BoostText⦄ (g : Guards) where
  pub subscribe-subscriptions :
      (id id' : ℕ) (channel : KuksaChannel) (path attribute : String) (h h' : Handler)
      → subscribe g id channel path attribute h ≡ ok (id', h')
      → (h'.subscriptions ≡ put_key (key_of (from_vss path) attribute) id channel h.subscriptions)
        × (id' ≡ id)
  unfolding subscribe
  subscribe-subscriptions id id' channel path attribute h h' e =
      let (_, _, e') = >>=-eq-ok (subscribe_guards g channel path) _ e in
      let same = ok-injective e' in
      (
        sym (ap (λ (x : ℕ × Handler). x.1.subscriptions) same),
        sym (ap (λ (x : ℕ × Handler). x.0) same),
      )

  -- After a successful subscription, a value that is published for the same node, in whatever
  -- spelling of its path, and for the same attribute puts a notification with the new identifier,
  -- the subscriber's channel, the data type and the data into the queue.
  pub subscribe-publish :
      (id id' : ℕ) (channel : KuksaChannel) (path path' attribute datatype : String)
      (payload : Json) (h h₁ h₂ : Handler)
      → subscribe g id channel path attribute h ≡ ok (id', h₁)
      → gen1_to_gen2 path ≡ gen1_to_gen2 path'
      → publish (from_vss path') datatype attribute payload h₁ ≡ ok h₂
      → Member (notify datatype payload (id', channel)) h₂.buffer
  subscribe-publish id id' channel path path' attribute datatype payload h h₁ h₂ subscribed same
        published =
      let (table, named) = subscribe-subscriptions id id' channel path attribute h h₁ subscribed in
      let queued = (publish-Published _ _ _ _ _ _ published).queued in
      let node : (from_vss path').vsspath ≡ (from_vss path).vsspath =
        vsspath-from_vss path' ∙ sym same ∙ sym (vsspath-from_vss path) in
      rw (queued, table, node, named)
        (Member-append h₁.buffer (
          Member-map (notify datatype payload) (
            rw
              (
                subscribers-put_key (key_of (from_vss path) attribute) id channel h.subscriptions
                    (key_of (from_vss path) attribute),
                same_key_refl (key_of (from_vss path) attribute),
              )
              (put_subscription-Member id channel _))))

  -- A subscription keeps the nested maps free of double keys and identifiers.
  pub subscribe-IsTable :
      (id id' : ℕ) (channel : KuksaChannel) (path attribute : String) (h h' : Handler)
      → IsTable h.subscriptions
      → subscribe g id channel path attribute h ≡ ok (id', h')
      → IsTable h'.subscriptions
  subscribe-IsTable id id' channel path attribute h h' t e =
      rw ((subscribe-subscriptions id id' channel path attribute h h' e).0)
        (put_key-IsTable _ id channel h.subscriptions t)
