-- ===== src/Subscription/Tables.antt =====
-- The table of subscriptions as a map, and its invariant.
use mathlib.Core.Bool.{true≢false}
use kuksa_val.Channel.{KuksaChannel}
use kuksa_val.Prelude.{
  ℕ, ◌≡◌, ◌≢◌, refl, sym, ap, subst, ◌∙◌, true, false, inl, inr, Option, none, some, [], ◌∷◌, arith,
  All, if◌then◌else◌, ◌==◌, eq_iff, Bool-cases, ==_iff,
}
use kuksa_val.Subscription.State.{
  Key, same_key, Subscriptions, Table, put_subscription, put_key, find_key, erase_id,
  erase_everywhere, erase_channel, erase_channel_everywhere,
}

same_key-eq : (p q : Key) → same_key p q ≡ true → p ≡ q
unfolding same_key
same_key-eq p q h = ground (arith, eq_iff p.path q.path, eq_iff p.attribute q.attribute)

pub same_key_refl : (p : Key) → same_key p p ≡ true
unfolding same_key
same_key_refl p = ground (arith, eq_iff p.path p.path, eq_iff p.attribute p.attribute)

-- The subscriptions to a key, none if the table does not have it.
abbrev pub listed : Option Subscriptions → Subscriptions
listed none = []
listed (some subs) = subs

abbrev pub subscribers : Key → Table → Subscriptions
subscribers key table = listed (find_key key table)

same_key_cases : (other key k : Key) → same_key other key ≡ true → same_key other k ≡ same_key key k
same_key_cases other key k h = ap (λ (x : Key). same_key x k) (same_key-eq other key h)

no_key :
    (other key k : Key)
    → same_key other key ≡ false
    → same_key key k ≡ true
    → same_key other k ≡ false
no_key other key k h e = rw (same_key-eq key k e) at h

pub subscribers-put_key :
    (key : Key) (id : ℕ) (channel : KuksaChannel) (table : Table) (k : Key)
    → subscribers k (put_key key id channel table) ≡ (
        if same_key key k
        then put_subscription id channel (subscribers k table)
        else subscribers k table)
unfolding find_key put_key
subscribers-put_key key id channel [] k = ground arith
subscribers-put_key key id channel ((other, subs) ∷ table) k =
    elim (Bool-cases (same_key other key)) [
      | inl e ↦
          ground (arith, same_key_cases other key k e, subscribers-put_key key id channel table k)
      | inr e ↦ ground (arith, no_key other key k e, subscribers-put_key key id channel table k)
    ]

-- The channel of a subscription.
unfoldable pub channel_of : ℕ → Subscriptions → Option KuksaChannel
channel_of id [] = none
channel_of id ((other, channel) ∷ subs) = if other == id then some channel else channel_of id subs

pub channel_of-put_subscription :
    (id : ℕ) (channel : KuksaChannel) (subs : Subscriptions) (other : ℕ)
    → channel_of other (put_subscription id channel subs)
      ≡ (if id == other then some channel else channel_of other subs)
unfolding channel_of put_subscription
channel_of-put_subscription id channel [] other = refl
channel_of-put_subscription id channel ((i, c) ∷ subs) other =
    ground (arith, channel_of-put_subscription id channel subs other)

pub subscribers-erase_everywhere :
    (id : ℕ) (table : Table) (k : Key)
    → subscribers k (erase_everywhere id table) ≡ erase_id id (subscribers k table)
unfolding find_key erase_everywhere erase_id
subscribers-erase_everywhere id [] k = refl
subscribers-erase_everywhere id ((other, subs) ∷ table) k =
    ground (arith, subscribers-erase_everywhere id table k)

pub subscribers-erase_channel_everywhere :
    (channel : KuksaChannel) (table : Table) (k : Key)
    → subscribers k (erase_channel_everywhere channel table)
      ≡ erase_channel channel (subscribers k table)
unfolding find_key erase_channel_everywhere erase_channel
subscribers-erase_channel_everywhere channel [] k = refl
subscribers-erase_channel_everywhere channel ((other, subs) ∷ table) k =
    ground (arith, subscribers-erase_channel_everywhere channel table k)

-- The invariant of the nested maps: no key twice, and no identifier twice under one key.
abbrev pub Fresh : ℕ → Subscriptions → Type 0
Fresh id subs = All (λ s. s.0 ≢ id) subs

abbrev pub Distinct : Subscriptions → Type 0
Distinct [] = Unit
Distinct ((id, channel) ∷ subs) = Fresh id subs × Distinct subs

abbrev pub NoKey : Key → Table → Type 0
NoKey key table = All (λ e. same_key e.0 key ≡ false) table

abbrev pub IsTable : Table → Type 0
IsTable [] = Unit
IsTable ((key, subs) ∷ table) = NoKey key table × Distinct subs × IsTable table

put_subscription-Fresh :
    (id : ℕ) (channel : KuksaChannel) (other : ℕ) (subs : Subscriptions)
    → id ≢ other
    → Fresh other subs
    → Fresh other (put_subscription id channel subs)
unfolding put_subscription
put_subscription-Fresh id channel other [] h f = (h, tt)
put_subscription-Fresh id channel other ((i, c) ∷ subs) h f =
    ground (arith, put_subscription-Fresh id channel other subs h f.1)

put_subscription-Distinct :
    (id : ℕ) (channel : KuksaChannel) (subs : Subscriptions)
    → Distinct subs
    → Distinct (put_subscription id channel subs)
unfolding put_subscription
put_subscription-Distinct id channel [] d = (tt, tt)
put_subscription-Distinct id channel ((i, c) ∷ subs) d = elim (Bool-cases (i == id)) [
  | inl e ↦ rw e (subst (λ n. Fresh n subs) ((==_iff i id).0 e) d.0, d.1)
  | inr e ↦ rw e (
    put_subscription-Fresh id channel i subs (λ q. ground arith) d.0,
    put_subscription-Distinct id channel subs d.1,
  )
]

put_key-NoKey :
    (key : Key) (id : ℕ) (channel : KuksaChannel) (other : Key) (table : Table)
    → same_key key other ≡ false
    → NoKey other table
    → NoKey other (put_key key id channel table)
unfolding put_key
put_key-NoKey key id channel other [] h n = (h, tt)
put_key-NoKey key id channel other ((k, subs) ∷ table) h n = elim (Bool-cases (same_key k key)) [
  | inl e ↦ rw e n
  | inr e ↦ rw e (n.0, put_key-NoKey key id channel other table h n.1)
]

same_key_sym : (p q : Key) → same_key p q ≡ false → same_key q p ≡ false
same_key_sym p q h = elim (Bool-cases (same_key q p)) [
  | inl e ↦ absurd (true≢false (sym (same_key_refl p) ∙ rw (same_key-eq q p e) at h))
  | inr e ↦ e
]

pub put_key-IsTable :
    (key : Key) (id : ℕ) (channel : KuksaChannel) (table : Table)
    → IsTable table
    → IsTable (put_key key id channel table)
unfolding put_key
put_key-IsTable key id channel [] t = (tt, (tt, tt), tt)
put_key-IsTable key id channel ((k, subs) ∷ table) t = elim (Bool-cases (same_key k key)) [
  | inl e ↦ rw e (t.0, put_subscription-Distinct id channel subs t.1, t.2)
  | inr e ↦ rw e (
    put_key-NoKey key id channel k table (same_key_sym k key e) t.0,
    t.1,
    put_key-IsTable key id channel table t.2,
  )
]
