-- ===== src/Grpc/Subscribe/Isolation.antt =====
-- grpcHandler.cpp, subscribe: what one stream does to the subscriptions of others.
use kuksa_val.Channel.{KuksaChannel}
use kuksa_val.Command.{RequestValidator}
use kuksa_val.Command.Subscribe.{process_subscribe, process_unsubscribe, subscription_answer}
use kuksa_val.Command.Subscribe.Effects.{
  SubscribeOutcome, refused, added, process_subscribe-SubscribeOutcome, IsErased,
  process_unsubscribe-IsErased,
}
use kuksa_val.Exception.{Result, ok, err, ok-injective, ◌>>=◌}
use kuksa_val.External.{BoostText, Jsoncons, Clock, Uuids}
use kuksa_val.Grpc.{Status, error_status}
use kuksa_val.Grpc.Subscribe.{
  StreamRequest, Stream, find_current, put_current, erase_current, stream_key, respond_if,
  with_stream, subscribe_answered, unsubscribe_failed, unsubscribe_done, unsubscribe_answered,
  unsubscribe_current, stream_step, stream_next, stream_loop, has_no_streams, subscribe_members,
  unsubscribe_members,
}
use kuksa_val.Json.{Json, str, obj, contains, lookup, assign, lookup-assign}
use kuksa_val.Prelude.{
  ℕ, String, ◌≡◌, refl, sym, ap, ◌∙◌, subst, Bool, true, false, ◌&&◌, ◌==◌, ◌⊎◌, inl, inr, Option,
  none, some, List, [], ◌∷◌, All, Bool-cases, ==_iff, if◌then◌else◌,
}
use kuksa_val.Subscription.Registry.{registry_of, registry_of-put_key, channel_of-erase_id}
use kuksa_val.Subscription.Removal.{subscribers-Distinct, erase_everywhere-IsTable}
use kuksa_val.Subscription.State.{
  Key, same_key, Table, Handler, Guards, put_key, erase_everywhere, member_of,
}
use kuksa_val.Subscription.Tables.{
  subscribers, channel_of, subscribers-erase_everywhere, IsTable, put_key-IsTable,
}

==_other : (i j : ℕ) → ¬ (j ≡ i) → (j == i) ≡ false
==_other i j other = elim (Bool-cases (j == i)) [
  | inl same ↦ absurd (other ((==_iff j i).0 same))
  | inr q ↦ q
]

-- The table names the same channel for the identifier as the first one, for every key.
abbrev pub Keeps : ℕ → Table → Table → Type 0
Keeps i first table =
    IsTable table × ((key : Key) → registry_of table key i ≡ registry_of first key i)

put_key-Keeps :
    (i j : ℕ) (key : Key) (channel : KuksaChannel) (first table : Table)
    → ¬ (j ≡ i)
    → Keeps i first table
    → Keeps i first (put_key key j channel table)
put_key-Keeps i j key channel first table other (t, same) = (
  put_key-IsTable key j channel table t,
  λ k.
      registry_of-put_key key j channel table k i
      ∙ ap (λ b. if same_key key k && b then some channel else registry_of table k i)
          (==_other i j other)
      ∙ dropped (same_key key k) k
      ∙ same k,
)
  where
    dropped :
        (b : Bool) (k : Key)
        → (if b && false then some channel else registry_of table k i) ≡ registry_of table k i
    dropped true k = refl
    dropped false k = refl

erase_everywhere-Keeps :
    (i j : ℕ) (first table : Table)
    → ¬ (j ≡ i)
    → Keeps i first table
    → Keeps i first (erase_everywhere j table)
erase_everywhere-Keeps i j first table other (t, same) = (
  erase_everywhere-IsTable j table t,
  λ k.
      ap (channel_of i) (subscribers-erase_everywhere j table k)
      ∙ channel_of-erase_id j (subscribers k table) i (subscribers-Distinct k table t)
      ∙ ap (λ b. if b then none else registry_of table k i) (==_other i j other)
      ∙ same k,
)

module _ ⦃J : Jsoncons⦄ ⦃C : Clock⦄ ⦃U : Uuids⦄ ⦃V : RequestValidator⦄ (i : ℕ) where
  -- The text of another identifier.
  abbrev pub IsOther : String → Type 0
  IsOther text = (j : ℕ) × (text ≡ U.uuid_text j) × ¬ (j ≡ i)

  abbrev pub AllOther : List (Key × String) → Type 0
  AllOther = All (λ (x : Key × String). IsOther x.1)

  find_current-IsOther :
      (key : Key) (text : String) (current : List (Key × String))
      → AllOther current
      → find_current key current ≡ some text
      → IsOther text
  unfolding find_current
  find_current-IsOther key text [] others q =
      absurd (let e : Path (Option String) none (some text) = q in cc)
  find_current-IsOther key text ((k, id) ∷ current) (o, others) q =
      elim (Bool-cases (same_key k key)) [
        | inl same ↦ subst (λ t. IsOther t) (some-inj (rw same at q)) o
        | inr different ↦ find_current-IsOther key text current others (rw different at q)
      ]
    where
      some-inj : some id ≡ some text → id ≡ text
      some-inj e = cc

  put_current-AllOther :
      (key : Key) (text : String) (current : List (Key × String))
      → IsOther text
      → AllOther current
      → AllOther (put_current key text current)
  unfolding put_current
  put_current-AllOther key text [] o others = (o, tt)
  put_current-AllOther key text ((k, id) ∷ current) o (o₁, others) =
      elim (Bool-cases (same_key k key)) [
        | inl same ↦ simp same (o, others)
        | inr different ↦ simp different (o₁, put_current-AllOther key text current o others)
      ]

  erase_current-AllOther :
      (key : Key) (current : List (Key × String))
      → AllOther current
      → AllOther (erase_current key current)
  unfolding erase_current
  erase_current-AllOther key [] others = tt
  erase_current-AllOther key ((k, id) ∷ current) (o, others) = elim (Bool-cases (same_key k key)) [
    | inl same ↦ simp same others
    | inr different ↦ simp different (o, erase_current-AllOther key current others)
  ]

  -- The table keeps the channel of the identifier, and the stream's own subscriptions are others.
  abbrev pub IsIsolated : Table → Stream → Type 0
  IsIsolated first s = Keeps i first s.handler.subscriptions × AllOther s.current

  module _ (first : Table) where
    respond_if-IsIsolated :
        (r : Result Status) (s : Stream) → IsIsolated first s → IsIsolated first (respond_if r s)
    respond_if-IsIsolated (err e) s k = k
    respond_if-IsIsolated (ok status) s k = k

    with_stream-IsIsolated :
        (r : Result ℕ) (s : Stream) → IsIsolated first s → IsIsolated first (with_stream r s)
    with_stream-IsIsolated (err e) s k = k
    with_stream-IsIsolated (ok id) s k = k

    -- What processSubscribe may answer here: an error, or the identifier of another subscription.
    abbrev pub AnswersOther : Result Json → Type 0
    AnswersOther r =
        (answer : Json)
        → r ≡ ok answer
        → (contains "error" answer ≡ true)
          ⊎ ((text : String) × IsOther text
              × ((do id ← member_of "subscriptionId" answer; J.as_string id) ≡ ok text))

    subscribe_answered-IsIsolated :
        (key : Key) (r : Result Json) (s : Stream)
        → AnswersOther r
        → IsIsolated first s
        → IsIsolated first (subscribe_answered key r s)
    unfolding subscribe_answered
    subscribe_answered-IsIsolated key (err e) s a k = k
    subscribe_answered-IsIsolated key (ok answer) s a k =
        elim (Bool-cases (contains "error" answer)) [
          | inl failed ↦ simp failed (respond_if-IsIsolated (error_status answer) s k)
          | inr fine ↦ elim (a answer refl) [
            | inl failed ↦ absurd (let q : true ≡ false = sym failed ∙ fine in cc)
            | inr (text, o, read) ↦ rw fine (
                rw read (
                  with_stream-IsIsolated (U.uuid_of_text text) _
                    (k.0, put_current-AllOther key text s.current o k.1)))
          ]
        ]

    unsubscribe_failed-IsIsolated :
        (r : Result Status) (s : Stream)
        → IsIsolated first s
        → IsIsolated first (unsubscribe_failed r s).1
    unsubscribe_failed-IsIsolated (err e) s k = k
    unsubscribe_failed-IsIsolated (ok status) s k = k

    unsubscribe_done-IsIsolated :
        (key : Key) (r : Result ℕ) (s : Stream)
        → IsIsolated first s
        → IsIsolated first (unsubscribe_done key r s).1
    unfolding erase_current
    unsubscribe_done-IsIsolated key (err e) s k = k
    unsubscribe_done-IsIsolated key (ok id) s (k, others) =
        (k, erase_current-AllOther key s.current others)

    unsubscribe_answered-IsIsolated :
        (key : Key) (text : String) (r : Result Json) (s : Stream)
        → IsIsolated first s
        → IsIsolated first (unsubscribe_answered key text r s).1
    unfolding unsubscribe_answered
    unsubscribe_answered-IsIsolated key text (err e) s k = k
    unsubscribe_answered-IsIsolated key text (ok answer) s k =
        elim (Bool-cases (contains "error" answer)) [
          | inl failed ↦ simp failed (unsubscribe_failed-IsIsolated (error_status answer) s k)
          | inr fine ↦ simp fine (unsubscribe_done-IsIsolated key (U.uuid_of_text text) s k)
        ]

    erased-Keeps :
        (j : ℕ) (h h' : Handler)
        → ¬ (j ≡ i)
        → IsErased j h h'
        → Keeps i first h.subscriptions
        → Keeps i first h'.subscriptions
    erased-Keeps j h h' other (inl q) k = subst (λ t. Keeps i first t) (sym q) k
    erased-Keeps j h h' other (inr q) k =
        subst (λ t. Keeps i first t) (sym q)
          (erase_everywhere-Keeps i j first h.subscriptions other k)

    unsubscribe_current-IsIsolated :
        (key : Key) (r : Option String) (s : Stream)
        → ((text : String) → r ≡ some text → IsOther text)
        → IsIsolated first s
        → IsIsolated first (unsubscribe_current key r s).1
    unfolding unsubscribe_answered process_unsubscribe assign
    unsubscribe_current-IsIsolated key none s o k = k
    unsubscribe_current-IsIsolated key (some text) s o (k, others) =
        let (j, named, other) = o text refl in
        let request = assign "subscriptionId" (str text) s.request in
        unsubscribe_answered-IsIsolated key text (process_unsubscribe (obj request) s.handler).0
          (record s {
            request = request;
            handler = (process_unsubscribe (obj request) s.handler).1;
          })
          (
            erased-Keeps j s.handler (process_unsubscribe (obj request) s.handler).1 other
                (process_unsubscribe-IsErased request j s.handler (
                  subst (λ (t : String). lookup "subscriptionId" request ≡ some (str t)) named
                    (lookup-assign "subscriptionId" "subscriptionId" (str text) s.request)))
                k,
            others,
          )

    module _ ⦃B : BoostText⦄ (g : Guards) (channel : KuksaChannel) where
      outcome-IsIsolated :
          (r : StreamRequest) (h : Handler) (o : Result Json × Handler)
          → ¬ (r.new_id ≡ i)
          → SubscribeOutcome r.new_id channel h o
          → Keeps i first h.subscriptions
          → AnswersOther o.0 × Keeps i first o.1.subscriptions
      unfolding subscription_answer lookup
      outcome-IsIsolated r h o other (refused same failed) k = (
        λ answer q. inl (failed answer q),
        subst (λ (x : Handler). Keeps i first x.subscriptions) (sym same) k,
      )
      outcome-IsIsolated r h o other (added request_id key q) k =
          subst (λ (x : Result Json × Handler). AnswersOther x.0 × Keeps i first x.1.subscriptions)
            (sym q)
            (
              λ answer done. inr (
                U.uuid_text r.new_id,
                (r.new_id, refl, other),
                ap (λ a. do id ← member_of "subscriptionId" a; J.as_string id)
                      (sym (ok-injective done))
                    ∙ J.as_string-str (U.uuid_text r.new_id),
              ),
              put_key-Keeps i r.new_id key channel first h.subscriptions other k,
            )

      stream_step-IsIsolated :
          (r : StreamRequest) (s : Stream)
          → ¬ (r.new_id ≡ i)
          → IsIsolated first s
          → IsIsolated first (stream_step g channel r s).1
      unfolding stream_step
      stream_step-IsIsolated r s other (k, others) = elim (Bool-cases r.start) [
        | inl start ↦
            let request = subscribe_members r s.request in
            let outcome = process_subscribe g r.new_id channel (obj request) s.handler in
            let (a, k') =
              outcome-IsIsolated r s.handler outcome other
                (process_subscribe-SubscribeOutcome g r.new_id channel (obj request) s.handler) k in
            rw start (
              subscribe_answered-IsIsolated (stream_key r) outcome.0
                (record s { request = request; handler = outcome.1 }) a (k', others))
        | inr stop ↦ rw stop (
            unsubscribe_current-IsIsolated (stream_key r) (find_current (stream_key r) s.current)
              (record s { request = unsubscribe_members r s.request })
              (λ text q. find_current-IsOther (stream_key r) text s.current others q) (k, others))
      ]

      next-IsIsolated :
          (next : Stream → Result (Unit {0}) × Stream) (o : Result (Unit {0}) × Stream)
          → ((s : Stream) → IsIsolated first s → IsIsolated first (next s).1)
          → IsIsolated first o.1
          → IsIsolated first (stream_next g channel next o).1
      next-IsIsolated next (err e, s) later k = k
      next-IsIsolated next (ok tt, s) later k =
          elim (Bool-cases (has_no_streams g channel s.streams)) [
            | inl none_left ↦ rw none_left k
            | inr some_left ↦ rw some_left (later s k)
          ]

      stream_loop-IsIsolated :
          (requests : List StreamRequest) (s : Stream)
          → All (λ (r : StreamRequest). ¬ (r.new_id ≡ i)) requests
          → IsIsolated first s
          → IsIsolated first (stream_loop g channel requests s).1
      unfolding stream_loop
      stream_loop-IsIsolated [] s fresh k = k
      stream_loop-IsIsolated (r ∷ requests) s (other, fresh) k =
          next-IsIsolated (stream_loop g channel requests) (stream_step g channel r s)
            (λ s' k'. stream_loop-IsIsolated requests s' fresh k')
            (stream_step-IsIsolated r s other k)

  -- Whatever a client sends on a stream that begins without subscriptions, with whatever answers
  -- and whether or not the loop ends with an exception: in a table without double keys and
  -- identifiers, an identifier that is given to none of the requests names the same channel, for
  -- every node and attribute, as before.
  pub registry_of-stream_loop :
      ⦃B : BoostText⦄ (g : Guards) (channel : KuksaChannel) (requests : List StreamRequest)
      (s : Stream)
      → s.current ≡ []
      → IsTable s.handler.subscriptions
      → All (λ (r : StreamRequest). ¬ (r.new_id ≡ i)) requests
      → (key : Key)
      → registry_of (stream_loop g channel requests s).1.handler.subscriptions key i
        ≡ registry_of s.handler.subscriptions key i
  registry_of-stream_loop g channel requests s start t fresh key =
      (stream_loop-IsIsolated s.handler.subscriptions g channel requests s fresh
          ((t, λ k. refl), subst (λ c. AllOther c) (sym start) tt)).0.1
        key
