-- ===== src/Publisher/Sending.antt =====
-- When a value is sent to the broker.
use kuksa_val.Access.{expand_stars}
use kuksa_val.Exception.{Result, ok, err}
use kuksa_val.External.{Jsoncons, Regex}
use kuksa_val.Json.{Json}
use kuksa_val.Prelude.{
  ◌⊎◌, ◌≢◌, code, ◌<>◌, ◌==◌, ==_iff, ℕ, zero, suc, ◌+◌, ◌≤◌, String, ◌≡◌, refl, ap, ◌∙◌, Bool,
  true, false, ◌||◌, List, [], ◌∷◌, ◌++◌, if◌then◌else◌, arith, Member, first, later, Bool-cases,
  inl, inr,
}
use kuksa_val.Publisher.{
  Publish, dots_to_slashes, MqttPublisher, no_paths, topic_name, connect_loop, start, publish_text,
  send_if, send_loop, send_path_value,
}

-- The text with a slash for each dot.
abbrev pub IsSlashed : String → String → Type 0
IsSlashed String.[] String.[] = Unit
IsSlashed (String.◌∷◌ c s) (String.◌∷◌ d t) =
    (((code c ≡ b'.') × (code d ≡ b'/')) ⊎ ((code c ≢ b'.') × (d ≡ c))) × IsSlashed s t
IsSlashed _ _ = ⊥

-- The topic of a path: behind the prefix and a slash, if there is a prefix.
pub data IsTopic (prefix path : String) : String → Type 0 where
  plain : (body : String) → prefix ≡ "" → IsSlashed path body → IsTopic prefix path body
  prefixed :
      (body : String)
      → prefix ≢ ""
      → IsSlashed path body
      → IsTopic prefix path (prefix <> "/" <> body)

dots_to_slashes-IsSlashed : (path : String) → IsSlashed path (dots_to_slashes path)
unfolding dots_to_slashes
dots_to_slashes-IsSlashed String.[] = tt
dots_to_slashes-IsSlashed (String.◌∷◌ c s) = elim (Bool-cases (code c == b'.')) [
  | inl dot ↦ rw dot (inl ((==_iff (code c) b'.').0 dot, refl), dots_to_slashes-IsSlashed s)
  | inr other ↦ rw other (inr ((λ q. ground (arith, other, q)), refl), dots_to_slashes-IsSlashed s)
]

topic_name-IsTopic : (prefix path : String) → IsTopic prefix path (topic_name prefix path)
unfolding topic_name
topic_name-IsTopic String.[] path = plain _ refl (dots_to_slashes-IsSlashed path)
topic_name-IsTopic (String.◌∷◌ c s) path = prefixed _ (λ q. cc) (dots_to_slashes-IsSlashed path)

module _ (connects : ℕ → Bool) where
  -- Nothing but the connection has changed, after at most so many attempts.
  pub record IsRetried (retries : ℕ) (m m' : MqttPublisher) : Type 0 where
    pub paths : m'.paths ≡ m.paths
    pub prefix : m'.prefix ≡ m.prefix
    pub published : m'.published ≡ m.published
    pub enough : m.attempts ≤ m'.attempts
    pub few : m'.attempts ≤ m.attempts + retries

  connect_loop-IsRetried :
      (retries : ℕ) (m : MqttPublisher) → IsRetried retries m (connect_loop connects retries m)
  unfolding connect_loop
  connect_loop-IsRetried zero m = record {
    paths = refl;
    prefix = refl;
    published = refl;
    enough = omega arith;
    few = omega arith;
  }
  connect_loop-IsRetried (suc retries) m = elim (Bool-cases (connects m.attempts)) [
    | inl joined ↦ simp joined (record {
      paths = refl;
      prefix = refl;
      published = refl;
      enough = omega arith;
      few = omega arith;
    })
    | inr failed ↦
        let r =
          connect_loop-IsRetried retries
            (record m { is_connected = false; attempts = suc m.attempts }) in
        simp failed (record {
          paths = r.paths;
          prefix = r.prefix;
          published = r.published;
          enough = omega (arith, r.enough);
          few = omega (arith, r.few);
        })
  ]

  start-IsRetried : (m : MqttPublisher) → IsRetried m.connection_retry m (start connects m)
  unfolding start
  start-IsRetried m = elim (Bool-cases (m.is_connected || no_paths m.paths)) [
    | inl idle ↦ simp idle (record {
      paths = refl;
      prefix = refl;
      published = refl;
      enough = omega arith;
      few = omega arith;
    })
    | inr tried ↦ simp tried (connect_loop-IsRetried m.connection_retry m)
  ]

  module _ ⦃J : Jsoncons⦄ ⦃R : Regex⦄ (mosquitto_publish : List Publish → String → String → ℕ) where
    -- A value that has been sent: a configured path matches, the broker is connected, and
    -- mosquitto_publish has been called once, with the topic of the path and the value's text, with
    -- whatever code it has returned.
    pub record IsSent (topic : String) (value : Json) (m m' : MqttPublisher) : Type 0 where
      pub path : String
      pub configured : Member path m.paths
      pub matched : R.regex_match (expand_stars path) topic ≡ ok true
      pub connected : m'.is_connected ≡ true
      pub payload : String
      pub read : J.as_string value ≡ ok payload
      pub name : String
      pub named : IsTopic m.prefix topic name
      pub published :
          m'.published
          ≡ m.published
            ++ (record {
              topic = name;
              payload = payload;
              code = mosquitto_publish m.published name payload;
            })
              ∷ []
      pub few : m'.attempts ≤ m.attempts + m.connection_retry

    matched-IsSent :
        (topic path : String) (value : Json) (m m' : MqttPublisher) (b : Bool) (r : Result String)
        → IsRetried m.connection_retry m m'
        → Member path m.paths
        → R.regex_match (expand_stars path) topic ≡ ok true
        → m'.is_connected ≡ b
        → J.as_string value ≡ r
        → (if b then publish_text connects mosquitto_publish topic m' r else (ok false, m')).0
          ≡ ok true
        → IsSent topic value m
            (if b then publish_text connects mosquitto_publish topic m' r else (ok false, m')).1
    matched-IsSent topic path value m m' false r tried configured matched on read h =
        absurd (let q : Path (Result Bool) (ok false) (ok true) = h in cc)
    matched-IsSent topic path value m m' true (err e) tried configured matched on read h =
        absurd (let q : Path (Result Bool) (err e) (ok true) = h in cc)
    matched-IsSent topic path value m m' true (ok payload) tried configured matched on read h =
        record {
          path = path;
          configured = configured;
          matched = matched;
          connected = on;
          payload = payload;
          read = read;
          name = topic_name m.prefix topic;
          named = topic_name-IsTopic m.prefix topic;
          published =
              ap (λ prefix. m'.published ++ call prefix m'.published ∷ []) tried.prefix
              ∙ ap (λ sent. sent ++ call m.prefix sent ∷ []) tried.published;
          few = tried.few;
        }
      where
        call : String → List Publish → Publish
        call prefix sent = record {
          topic = topic_name prefix topic;
          payload = payload;
          code = mosquitto_publish sent (topic_name prefix topic) payload;
        }

    send_if-IsSent :
        (topic path : String) (value : Json) (m : MqttPublisher)
        (rest : Result Bool × MqttPublisher) (r : Result Bool)
        → Member path m.paths
        → R.regex_match (expand_stars path) topic ≡ r
        → (rest.0 ≡ ok true → IsSent topic value m rest.1)
        → (send_if connects mosquitto_publish topic value m rest r).0 ≡ ok true
        → IsSent topic value m (send_if connects mosquitto_publish topic value m rest r).1
    send_if-IsSent topic path value m rest (err e) configured matched next h =
        absurd (let q : Path (Result Bool) (err e) (ok true) = h in cc)
    send_if-IsSent topic path value m rest (ok false) configured matched next h = next h
    send_if-IsSent topic path value m rest (ok true) configured matched next h =
        matched-IsSent topic path value m (start connects m) _ _ (start-IsRetried m) configured
          matched refl refl h

    send_loop-IsSent :
        (topic : String) (value : Json) (paths : List String) (m : MqttPublisher)
        → ((path : String) → Member path paths → Member path m.paths)
        → (send_loop connects mosquitto_publish topic value paths m).0 ≡ ok true
        → IsSent topic value m (send_loop connects mosquitto_publish topic value paths m).1
    unfolding send_loop
    send_loop-IsSent topic value [] m inside h =
        absurd (let q : Path (Result Bool) (ok false) (ok true) = h in cc)
    send_loop-IsSent topic value (path ∷ paths) m inside h =
        send_if-IsSent topic path value m (send_loop connects mosquitto_publish topic value paths m)
          _ (inside path first) refl
          (send_loop-IsSent topic value paths m (λ p q. inside p (later q))) h

    -- If sendPathValue answers true, a configured path matches the topic, the broker is connected
    -- after at most the configured number of attempts, and mosquitto_publish has been called
    -- exactly once, with the text of the value, on the topic with slashes for dots and behind the
    -- prefix, if there is one; it may have failed.
    pub send_path_value-IsSent :
        (topic : String) (value : Json) (m : MqttPublisher)
        → (send_path_value connects mosquitto_publish topic value m).0 ≡ ok true
        → IsSent topic value m (send_path_value connects mosquitto_publish topic value m).1
    unfolding send_path_value
    send_path_value-IsSent topic value m h = send_loop-IsSent topic value m.paths m (λ p q. q) h
