-- ===== src/Subscription/Removal.antt =====
-- What unsubscribe and unsubscribeAll take away, and what they leave.
use kuksa_val.Channel.{KuksaChannel, same_channel}
use kuksa_val.Exception.{ok}
use kuksa_val.Json.{Json}
use kuksa_val.Path.{VssPath}
use kuksa_val.Prelude.{
  ℕ, suc, ◌-◌, ◌≤◌, String, ◌≡◌, ◌≢◌, refl, sym, ap, subst, ◌∙◌, true, false, inl, inr, List, [],
  ◌∷◌, ◌++◌, map, arith, All, Member, first, later, if◌then◌else◌, ◌==◌, ==_iff, Bool-cases,
}
use kuksa_val.Subscription.State.{
  Key, key_of, Subscriptions, Table, Notification, Handler, find_key, notify, publish, erase_id,
  erase_everywhere, unsubscribe, erase_channel, erase_channel_everywhere, unsubscribe_all,
}
use kuksa_val.Subscription.Tables.{
  subscribers, Fresh, Distinct, NoKey, IsTable, subscribers-erase_everywhere,
  subscribers-erase_channel_everywhere,
}
use kuksa_val.Subscription.Publishing.{publish-Published}

erase_id-Fresh :
    (id other : ℕ) (subs : Subscriptions) → Fresh other subs → Fresh other (erase_id id subs)
unfolding erase_id
erase_id-Fresh id other [] f = tt
erase_id-Fresh id other ((i, c) ∷ subs) f = ground (arith, erase_id-Fresh id other subs f.1)

erase_id-Distinct : (id : ℕ) (subs : Subscriptions) → Distinct subs → Distinct (erase_id id subs)
unfolding erase_id
erase_id-Distinct id [] d = tt
erase_id-Distinct id ((i, c) ∷ subs) d =
    ground (arith, erase_id-Fresh id i subs d.0, erase_id-Distinct id subs d.1)

erase_everywhere-NoKey :
    (id : ℕ) (key : Key) (table : Table) → NoKey key table → NoKey key (erase_everywhere id table)
unfolding erase_everywhere
erase_everywhere-NoKey id key [] n = tt
erase_everywhere-NoKey id key ((k, subs) ∷ table) n = (n.0, erase_everywhere-NoKey id key table n.1)

pub erase_everywhere-IsTable :
    (id : ℕ) (table : Table) → IsTable table → IsTable (erase_everywhere id table)
unfolding erase_everywhere
erase_everywhere-IsTable id [] t = tt
erase_everywhere-IsTable id ((k, subs) ∷ table) t = (
  erase_everywhere-NoKey id k table t.0,
  erase_id-Distinct id subs t.1,
  erase_everywhere-IsTable id table t.2,
)

erase_channel-Fresh :
    (channel : KuksaChannel) (other : ℕ) (subs : Subscriptions)
    → Fresh other subs
    → Fresh other (erase_channel channel subs)
unfolding erase_channel
erase_channel-Fresh channel other [] f = tt
erase_channel-Fresh channel other ((i, c) ∷ subs) f =
    ground (arith, erase_channel-Fresh channel other subs f.1)

erase_channel-Distinct :
    (channel : KuksaChannel) (subs : Subscriptions)
    → Distinct subs
    → Distinct (erase_channel channel subs)
unfolding erase_channel
erase_channel-Distinct channel [] d = tt
erase_channel-Distinct channel ((i, c) ∷ subs) d =
    ground (arith, erase_channel-Fresh channel i subs d.0, erase_channel-Distinct channel subs d.1)

erase_channel-NoKey :
    (channel : KuksaChannel) (key : Key) (table : Table)
    → NoKey key table
    → NoKey key (erase_channel_everywhere channel table)
unfolding erase_channel_everywhere
erase_channel-NoKey channel key [] n = tt
erase_channel-NoKey channel key ((k, subs) ∷ table) n =
    (n.0, erase_channel-NoKey channel key table n.1)

erase_channel-IsTable :
    (channel : KuksaChannel) (table : Table)
    → IsTable table
    → IsTable (erase_channel_everywhere channel table)
unfolding erase_channel_everywhere
erase_channel-IsTable channel [] t = tt
erase_channel-IsTable channel ((k, subs) ∷ table) t = (
  erase_channel-NoKey channel k table t.0,
  erase_channel-Distinct channel subs t.1,
  erase_channel-IsTable channel table t.2,
)

-- Neither unsubscribe nor unsubscribeAll makes a key or an identifier appear twice.
pub removal-IsTable :
    (id : ℕ) (channel : KuksaChannel) (h : Handler)
    → IsTable h.subscriptions
    → IsTable (unsubscribe id h).1.subscriptions × IsTable (unsubscribe_all channel h).subscriptions
unfolding unsubscribe unsubscribe_all
removal-IsTable id channel h t =
    (erase_everywhere-IsTable id h.subscriptions t, erase_channel-IsTable channel h.subscriptions t)

-- An identifier is gone after it has been erased, if it was not there twice.
Fresh-erase_id_absent : (id : ℕ) (subs : Subscriptions) → Fresh id subs → erase_id id subs ≡ subs
unfolding erase_id
Fresh-erase_id_absent id [] f = refl
Fresh-erase_id_absent id ((i, c) ∷ subs) f = ground (arith, Fresh-erase_id_absent id subs f.1)

erase_id-gone : (id : ℕ) (subs : Subscriptions) → Distinct subs → Fresh id (erase_id id subs)
unfolding erase_id
erase_id-gone id [] d = tt
erase_id-gone id ((i, c) ∷ subs) d = elim (Bool-cases (i == id)) [
  | inl e ↦ rw e (subst (λ n. Fresh n subs) ((==_iff i id).0 e) d.0)
  | inr e ↦ rw e ((λ q. ground arith), erase_id-gone id subs d.1)
]

-- What a search finds under a key is free of double identifiers.
pub subscribers-Distinct :
    (key : Key) (table : Table) → IsTable table → Distinct (subscribers key table)
unfolding find_key
subscribers-Distinct key [] t = tt
subscribers-Distinct key ((k, subs) ∷ table) t = ground (arith, subscribers-Distinct key table t.2)

map-Fresh :
    (id : ℕ) (datatype : String) (payload : Json) (subs : Subscriptions)
    → Fresh id subs
    → All (λ (n : Notification). n.id ≢ id) (map (notify datatype payload) subs)
map-Fresh id datatype payload [] f = tt
map-Fresh id datatype payload ((i, c) ∷ subs) f = (f.0, map-Fresh id datatype payload subs f.1)

-- All subscriptions but those with the identifier, in their order.
unfoldable pub others : ℕ → Subscriptions → Subscriptions
others id [] = []
others id ((i, c) ∷ subs) = if i == id then others id subs else (i, c) ∷ others id subs

Fresh-others : (id : ℕ) (subs : Subscriptions) → Fresh id subs → others id subs ≡ subs
unfolding others
Fresh-others id [] f = refl
Fresh-others id ((i, c) ∷ subs) f = ground (arith, Fresh-others id subs f.1)

erase_id-others :
    (id : ℕ) (subs : Subscriptions) → Distinct subs → erase_id id subs ≡ others id subs
unfolding erase_id others
erase_id-others id [] d = refl
erase_id-others id ((i, c) ∷ subs) d = elim (Bool-cases (i == id)) [
  | inl e ↦ rw e (sym (Fresh-others id subs (subst (λ n. Fresh n subs) ((==_iff i id).0 e) d.0)))
  | inr e ↦ rw e (ap (λ rest. (i, c) ∷ rest) (erase_id-others id subs d.1))
]

-- In a table without double keys and identifiers, after unsubscribe no publication queues a
-- notification for the identifier; every other subscription to the path is notified as before, in
-- the same order.
pub unsubscribe-publish :
    (id : ℕ) (path : VssPath) (datatype attribute : String) (payload : Json) (h h' : Handler)
    → IsTable h.subscriptions
    → publish path datatype attribute payload (unsubscribe id h).1 ≡ ok h'
    → (new : List Notification) × (h'.buffer ≡ h.buffer ++ new)
      × All (λ (n : Notification). n.id ≢ id) new
      × (new
          ≡ map
              (notify datatype payload)
              (others id (subscribers (key_of path attribute) h.subscriptions)))
unfolding unsubscribe
unsubscribe-publish id path datatype attribute payload h h' t e =
    let key = key_of path attribute in
    let distinct = subscribers-Distinct key h.subscriptions t in
    let same = erase_id-others id (subscribers key h.subscriptions) distinct in
    let left = subscribers-erase_everywhere id h.subscriptions key ∙ same in
    (
      map (notify datatype payload) (others id (subscribers key h.subscriptions)),
      (publish-Published _ _ _ _ _ _ e).queued
          ∙ ap (λ (s : Subscriptions). h.buffer ++ map (notify datatype payload) s) left,
      map-Fresh id datatype payload _
          (subst (λ (s : Subscriptions). Fresh id s) same (erase_id-gone id _ distinct)),
      refl,
    )

-- How many of the subscriptions belong to the connection of the channel.
unfoldable pub occurrences : KuksaChannel → Subscriptions → ℕ
occurrences channel [] = 0
occurrences channel ((id, other) ∷ subs) =
    if same_channel other channel then suc (occurrences channel subs) else occurrences channel subs

occurrences-erase_channel :
    (channel : KuksaChannel) (subs : Subscriptions)
    → occurrences channel (erase_channel channel subs) ≡ occurrences channel subs - 1
unfolding occurrences erase_channel
occurrences-erase_channel channel [] = refl
occurrences-erase_channel channel ((i, c) ∷ subs) =
    ground (arith, occurrences-erase_channel channel subs)

occurrences-erase_channel_other :
    (channel other : KuksaChannel) (subs : Subscriptions)
    → same_channel other channel ≡ false
    → occurrences other (erase_channel channel subs) ≡ occurrences other subs
unfolding occurrences erase_channel same_channel
occurrences-erase_channel_other channel other [] h = refl
occurrences-erase_channel_other channel other ((i, c) ∷ subs) h =
    ground (arith, occurrences-erase_channel_other channel other subs h)

-- unsubscribeAll takes one subscription of the channel away under each key, and no subscription
-- of another connection.
pub unsubscribe_all-occurrences :
    (channel other : KuksaChannel) (key : Key) (h : Handler)
    → same_channel other channel ≡ false
    → (occurrences channel (subscribers key (unsubscribe_all channel h).subscriptions)
        ≡ occurrences channel (subscribers key h.subscriptions) - 1)
      × (occurrences other (subscribers key (unsubscribe_all channel h).subscriptions)
          ≡ occurrences other (subscribers key h.subscriptions))
unfolding unsubscribe_all
unsubscribe_all-occurrences channel other key h distinct =
    rw (subscribers-erase_channel_everywhere channel h.subscriptions key) (
      occurrences-erase_channel channel _,
      occurrences-erase_channel_other channel other _ distinct,
    )

occurrences-Member :
    (channel : KuksaChannel) (subs : Subscriptions)
    → 1 ≤ occurrences channel subs
    → (id : ℕ) × (c : KuksaChannel) × Member (id, c) subs × (same_channel c channel ≡ true)
unfolding occurrences
occurrences-Member channel [] h = absurd (omega arith)
occurrences-Member channel ((i, c) ∷ subs) h = elim (Bool-cases (same_channel c channel)) [
  | inl e ↦ (i, c, first, e)
  | inr e ↦
      let (id, c', m, same) = occurrences-Member channel subs (ground arith) in
      (id, c', later m, same)
]

Member-queue :
    (f : ℕ × KuksaChannel → Notification) (buffer : List Notification) {s : ℕ × KuksaChannel}
    {subs : Subscriptions}
    → Member s subs
    → Member (f s) (buffer ++ map f subs)
Member-queue f [] first = first
Member-queue f [] (later m) = later (Member-queue f [] m)
Member-queue f (b ∷ buffer) m = later (Member-queue f buffer m)

-- A connection that has subscribed twice to one path and attribute is still notified
-- after unsubscribeAll has been called for it.
pub unsubscribe_all_incomplete :
    (channel : KuksaChannel) (path : VssPath) (datatype attribute : String) (payload : Json)
    (h h' : Handler)
    → 2 ≤ occurrences channel (subscribers (key_of path attribute) h.subscriptions)
    → publish path datatype attribute payload (unsubscribe_all channel h) ≡ ok h'
    → (n : Notification) × Member n h'.buffer × (same_channel n.channel channel ≡ true)
unfolding unsubscribe_all
unsubscribe_all_incomplete channel path datatype attribute payload h h' twice e =
    let key = key_of path attribute in
    let left = subscribers-erase_channel_everywhere channel h.subscriptions key in
    let remains : 1
        ≤ occurrences channel (erase_channel channel (subscribers key h.subscriptions)) =
      omega (arith, occurrences-erase_channel channel (subscribers key h.subscriptions)) in
    let (id, c, m, same) = occurrences-Member channel _ remains in
    (
      notify datatype payload (id, c),
      rw ((publish-Published _ _ _ _ _ _ e).queued, left)
          (Member-queue (notify datatype payload) h.buffer m),
      same,
    )
