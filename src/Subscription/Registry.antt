-- ===== src/Subscription/Registry.antt =====
-- What SubscriptionHandler promises to its clients, as a function from node, attribute and
-- identifier to the channel that is notified; the nested maps implement it.
use kuksa_val.Channel.{KuksaChannel}
use kuksa_val.Exception.{Result, ok, err}
use kuksa_val.External.{BoostText}
use kuksa_val.Json.{Json}
use kuksa_val.Path.{VssPath, from_vss}
use kuksa_val.Prelude.{
  ℕ, String, ◌≡◌, refl, sym, ap, ◌∙◌, Bool, true, false, ◌&&◌, Option, none, some, List, [], ◌∷◌,
  ◌++◌, ◌==◌, map, if◌then◌else◌, arith, inl, inr, Bool-cases, ==_iff, subst,
}
use kuksa_val.Subscription.Publishing.{publish-Published}
use kuksa_val.Subscription.Removal.{subscribers-Distinct, erase_everywhere-IsTable}
use kuksa_val.Subscription.State.{
  Key, key_of, same_key, Subscriptions, Table, Notification, Handler, Guards, put_key,
  put_subscription, notify, subscribe_guards, subscribe, erase_id, unsubscribe, publish,
}
use kuksa_val.Subscription.Tables.{
  subscribers, subscribers-put_key, channel_of, channel_of-put_subscription,
  subscribers-erase_everywhere, Fresh, Distinct, IsTable, put_key-IsTable,
}

-- The channel that is notified by an identifier, of what is published for a key.
abbrev pub Registry : Type 0
Registry = Key → ℕ → Option KuksaChannel

abbrev pub registry_of : Table → Registry
registry_of table key id = channel_of id (subscribers key table)

-- A call of a client or of the database.
pub data Request : Type 0 where
  subscribing : (id : ℕ) (channel : KuksaChannel) (path attribute : String) → Request
  unsubscribing : (id : ℕ) → Request
  publishing : (path : VssPath) (datatype attribute : String) (payload : Json) → Request

abbrev pub after_subscribe : Handler → Result (ℕ × Handler) → Handler
after_subscribe h (err e) = h
after_subscribe h (ok (id, h')) = h'

abbrev pub published_or : Handler → Result Handler → Handler
published_or h (err e) = h
published_or h (ok h') = h'

abbrev pub if_accepted : Key → ℕ → KuksaChannel → Registry → Result (Unit {0}) → Registry
if_accepted key id channel reg (err e) = reg
if_accepted key id channel reg (ok tt) =
    λ k i. if same_key key k && (id == i) then some channel else reg k i

abbrev pub Agrees : Handler → Registry → Type 0
Agrees h reg = (key : Key) (id : ℕ) → registry_of h.subscriptions key id ≡ reg key id

pub registry_of-put_key :
    (key : Key) (id : ℕ) (channel : KuksaChannel) (table : Table) (k : Key) (i : ℕ)
    → registry_of (put_key key id channel table) k i
      ≡ (if same_key key k && (id == i) then some channel else registry_of table k i)
registry_of-put_key key id channel table k i =
    ap (channel_of i) (subscribers-put_key key id channel table k) ∙ in_key (same_key key k)
  where
    in_key :
        (b : Bool)
        → channel_of i
            (if b then put_subscription id channel (subscribers k table) else subscribers k table)
          ≡ (if b && (id == i) then some channel else registry_of table k i)
    in_key true = channel_of-put_subscription id channel (subscribers k table) i
    in_key false = refl

Fresh-channel_of : (id : ℕ) (subs : Subscriptions) → Fresh id subs → channel_of id subs ≡ none
unfolding channel_of
Fresh-channel_of id [] f = refl
Fresh-channel_of id ((i, c) ∷ subs) f = ground (arith, Fresh-channel_of id subs f.1, f.0)

pub channel_of-erase_id :
    (id : ℕ) (subs : Subscriptions) (i : ℕ)
    → Distinct subs
    → channel_of i (erase_id id subs) ≡ (if id == i then none else channel_of i subs)
unfolding channel_of erase_id
channel_of-erase_id id [] i d = ground arith
channel_of-erase_id id ((other, c) ∷ subs) i d = elim (Bool-cases (other == id)) [
  | inl e ↦ elim (Bool-cases (id == i)) [
    | inl q ↦
        let other_is_i : other ≡ i = (==_iff other id).0 e ∙ (==_iff id i).0 q in
        ground (arith, e, q, Fresh-channel_of i subs (subst (λ n. Fresh n subs) other_is_i d.0))
    | inr q ↦ ground (arith, e, q)
  ]
  | inr e ↦ ground (arith, e, channel_of-erase_id id subs i d.1)
]

-- The channel of the first notification with the identifier.
unfoldable pub notified : ℕ → List Notification → Option KuksaChannel
notified id [] = none
notified id (n ∷ ns) = if n.id == id then some n.channel else notified id ns

notified-map :
    (id : ℕ) (datatype : String) (payload : Json) (subs : Subscriptions)
    → notified id (map (notify datatype payload) subs) ≡ channel_of id subs
unfolding notified channel_of
notified-map id datatype payload [] = refl
notified-map id datatype payload ((i, c) ∷ subs) =
    ap (λ x. if i == id then some c else x) (notified-map id datatype payload subs)

module _ ⦃B : BoostText⦄ (g : Guards) where
  unfoldable pub perform_request : Request → Handler → Handler
  unfolding subscribe unsubscribe publish
  perform_request (subscribing id channel path attribute) h =
      after_subscribe h (subscribe g id channel path attribute h)
  perform_request (unsubscribing id) h = (unsubscribe id h).1
  perform_request (publishing path datatype attribute payload) h =
      published_or h (publish path datatype attribute payload h)

  unfoldable pub perform_requests : List Request → Handler → Handler
  unfolding perform_request
  perform_requests [] h = h
  perform_requests (r ∷ requests) h = perform_requests requests (perform_request r h)

  -- What a request is to do: a subscription that the guards accept adds its channel, an
  -- identifier that is given back names no channel any more, and a publication changes nothing.
  unfoldable pub promised : Request → Registry → Registry
  unfolding subscribe_guards same_key
  promised (subscribing id channel path attribute) reg =
      if_accepted (key_of (from_vss path) attribute) id channel reg
        (subscribe_guards g channel path)
  promised (unsubscribing id) reg = λ k i. if id == i then none else reg k i
  promised (publishing path datatype attribute payload) reg = reg

  unfoldable pub promised_all : List Request → Registry → Registry
  unfolding promised
  promised_all [] reg = reg
  promised_all (r ∷ requests) reg = promised_all requests (promised r reg)

  subscribe-Agrees :
      (id : ℕ) (channel : KuksaChannel) (path attribute : String) (h : Handler) (reg : Registry)
      (r : Result (Unit {0}))
      → subscribe_guards g channel path ≡ r
      → IsTable h.subscriptions
      → Agrees h reg
      → IsTable (perform_request (subscribing id channel path attribute) h).subscriptions
        × Agrees
            (perform_request (subscribing id channel path attribute) h)
            (if_accepted (key_of (from_vss path) attribute) id channel reg r)
  unfolding perform_request subscribe
  subscribe-Agrees id channel path attribute h reg (err e) guards t a = rw guards (t, a)
  subscribe-Agrees id channel path attribute h reg (ok tt) guards t a = rw guards (
    put_key-IsTable key id channel h.subscriptions t,
    λ k i.
        registry_of-put_key key id channel h.subscriptions k i
        ∙ ap (λ x. if same_key key k && (id == i) then some channel else x) (a k i),
  )
    where
      key : Key
      key = key_of (from_vss path) attribute

  publish-Agrees :
      (path : VssPath) (datatype attribute : String) (payload : Json) (h : Handler) (reg : Registry)
      (r : Result Handler)
      → publish path datatype attribute payload h ≡ r
      → IsTable h.subscriptions
      → Agrees h reg
      → IsTable (published_or h r).subscriptions × Agrees (published_or h r) reg
  publish-Agrees path datatype attribute payload h reg (err e) q t a = (t, a)
  publish-Agrees path datatype attribute payload h reg (ok h') q t a =
      let same = sym (publish-Published path datatype attribute payload h h' q).table in
      (
        subst (λ x. IsTable x) same t,
        subst (λ (x : Table). (key : Key) (id : ℕ) → registry_of x key id ≡ reg key id) same a,
      )

  perform_request-Agrees :
      (r : Request) (h : Handler) (reg : Registry)
      → IsTable h.subscriptions
      → Agrees h reg
      → IsTable (perform_request r h).subscriptions × Agrees (perform_request r h) (promised r reg)
  unfolding perform_request promised unsubscribe
  perform_request-Agrees (subscribing id channel path attribute) h reg t a =
      subscribe-Agrees id channel path attribute h reg (subscribe_guards g channel path) refl t a
  perform_request-Agrees (unsubscribing id) h reg t a = (
    erase_everywhere-IsTable id h.subscriptions t,
    λ k i.
        ap (channel_of i) (subscribers-erase_everywhere id h.subscriptions k)
        ∙ channel_of-erase_id id (subscribers k h.subscriptions) i
            (subscribers-Distinct k h.subscriptions t)
        ∙ ap (λ x. if id == i then none else x) (a k i),
  )
  perform_request-Agrees (publishing path datatype attribute payload) h reg t a =
      publish-Agrees path datatype attribute payload h reg _ refl t a

  perform_requests-Agrees :
      (requests : List Request) (h : Handler) (reg : Registry)
      → IsTable h.subscriptions
      → Agrees h reg
      → Agrees (perform_requests requests h) (promised_all requests reg)
  unfolding perform_requests promised_all
  perform_requests-Agrees [] h reg t a = a
  perform_requests-Agrees (r ∷ requests) h reg t a =
      let (t', a') = perform_request-Agrees r h reg t a in
      perform_requests-Agrees requests (perform_request r h) (promised r reg) t' a'

  -- Whatever subscriptions, removals and publications come first, starting from a table without
  -- double keys and identifiers: a publication then queues for each identifier a notification to
  -- the very channel that the promise names for it, and none where it names none.
  pub perform_requests-promised :
      (requests : List Request) (h h' : Handler) (path : VssPath) (datatype attribute : String)
      (payload : Json)
      → IsTable h.subscriptions
      → publish path datatype attribute payload (perform_requests requests h) ≡ ok h'
      → (new : List Notification) × (h'.buffer ≡ (perform_requests requests h).buffer ++ new)
        × ((id : ℕ)
            → notified id new
              ≡ promised_all requests (registry_of h.subscriptions) (key_of path attribute) id)
  perform_requests-promised requests h h' path datatype attribute payload t done =
      let now = perform_requests requests h in
      let key = key_of path attribute in
      (
        map (notify datatype payload) (subscribers key now.subscriptions),
        (publish-Published path datatype attribute payload now h' done).queued,
        λ id.
            notified-map id datatype payload (subscribers key now.subscriptions)
            ∙ perform_requests-Agrees requests h (registry_of h.subscriptions) t (λ k i. refl) key
                id,
      )
