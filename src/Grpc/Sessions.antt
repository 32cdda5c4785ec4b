-- ===== src/Grpc/Sessions.antt =====
-- Where the channels of the gRPC service come from.
use kuksa_val.Channel.{KuksaChannel}
use kuksa_val.Command.Authorize.{process_authorize}
use kuksa_val.Command.Authorize.Granting.{process_authorize-HoldsToken}
use kuksa_val.Exception.{Result, ok, err}
use kuksa_val.External.{Jsoncons, Clock, Uuids, Jwt}
use kuksa_val.Grpc.{
  Session, StreamChannel, Service, Call, default_channel, grpc_channel, same_session, find_session,
  put_session, find_context, session_channel, checked_id, checked_text, auth_checker, new_context,
  context_or_new, subscription_channel, with_session, authorize_helper,
}
use kuksa_val.Json.{Json, contains, empty}
use kuksa_val.Prelude.{
  ℕ, String, ◌≡◌, refl, sym, ◌∙◌, ap, true, false, ◌⊎◌, inl, inr, Option, none, some, List, [], ◌∷◌,
  All, Bool-cases, subst, arith,
}

-- A call that may change the maps of the service.
pub data Rpc : Type 0 where
  sign_in : (peer token : String) (id : ℕ) → Rpc
  check_session : Call → Rpc
  open_stream : Call → Rpc

module _ ⦃J : Jsoncons⦄ ⦃U : Uuids⦄ ⦃C : Clock⦄ ⦃W : Jwt⦄ (key : String) where
  -- The channel has no rights, or it holds a token that the key verifies.
  abbrev pub IsTrusted : KuksaChannel → Type 0
  IsTrusted channel =
      ((channel.authorized ≡ false) × (channel.modify_tree ≡ false) × (channel.permissions ≡ empty))
      ⊎ ((W.verify key channel.auth_token ≡ ok tt) × (channel.authorized ≡ true))

  abbrev pub AllTrusted : Service → Type 0
  AllTrusted svc =
      All (λ (x : Session × KuksaChannel). IsTrusted x.1) svc.sessions
      × All (λ (x : ℕ × StreamChannel). IsTrusted x.1.channel) svc.contexts

  unfoldable pub serve : Rpc → Service → Service
  unfolding authorize_helper auth_checker subscription_channel
  serve (sign_in peer token id) svc = (authorize_helper key peer token id svc).1
  serve (check_session call) svc = (auth_checker call svc).1
  serve (open_stream call) svc = (subscription_channel call svc).1

  unfoldable pub serve_all : List Rpc → Service → Service
  unfolding serve
  serve_all [] svc = svc
  serve_all (rpc ∷ rpcs) svc = serve_all rpcs (serve rpc svc)

  put_session-IsTrusted :
      (s : Session) (channel : KuksaChannel) (sessions : List (Session × KuksaChannel))
      → IsTrusted channel
      → All (λ (x : Session × KuksaChannel). IsTrusted x.1) sessions
      → All (λ (x : Session × KuksaChannel). IsTrusted x.1) (put_session s channel sessions)
  unfolding put_session
  put_session-IsTrusted s channel [] t ts = (t, tt)
  put_session-IsTrusted s channel ((other, old) ∷ sessions) t (t₁, ts) =
      elim (Bool-cases (same_session other s)) [
        | inl same ↦ simp same (t, ts)
        | inr different ↦ simp different (t₁, put_session-IsTrusted s channel sessions t ts)
      ]

  find_session-IsTrusted :
      (s : Session) (channel : KuksaChannel) (sessions : List (Session × KuksaChannel))
      → All (λ (x : Session × KuksaChannel). IsTrusted x.1) sessions
      → find_session s sessions ≡ some channel
      → IsTrusted channel
  unfolding find_session
  find_session-IsTrusted s channel [] ts h =
      absurd (let q : Path (Option KuksaChannel) none (some channel) = h in cc)
  find_session-IsTrusted s channel ((other, old) ∷ sessions) (t, ts) h =
      elim (Bool-cases (same_session other s)) [
        | inl same ↦ subst (λ c. IsTrusted c) (some-inj (rw same at h)) t
        | inr different ↦ find_session-IsTrusted s channel sessions ts (rw different at h)
      ]
    where
      some-inj : some old ≡ some channel → old ≡ channel
      some-inj q = cc

  default-IsTrusted : IsTrusted default_channel
  default-IsTrusted = inl (refl, refl, refl)

  session_channel-IsTrusted :
      (svc : Service) (s : Session) (found : Option KuksaChannel)
      → find_session s svc.sessions ≡ found
      → AllTrusted svc
      → IsTrusted (session_channel svc s found).0 × AllTrusted (session_channel svc s found).1
  session_channel-IsTrusted svc s (some channel) h (ts, us) =
      (find_session-IsTrusted s channel svc.sessions ts h, (ts, us))
  session_channel-IsTrusted svc s none h (ts, us) = (
    default-IsTrusted,
    (put_session-IsTrusted s default_channel svc.sessions default-IsTrusted ts, us),
  )

  abbrev TrustedIf : Option KuksaChannel → Type 0
  TrustedIf none = Unit
  TrustedIf (some channel) = IsTrusted channel

  checked_id-IsTrusted :
      (svc : Service) (peer : String) (id : Result ℕ)
      → AllTrusted svc
      → TrustedIf (checked_id svc peer id).0 × AllTrusted (checked_id svc peer id).1
  checked_id-IsTrusted svc peer (err e) t = (tt, t)
  checked_id-IsTrusted svc peer (ok id) t =
      session_channel-IsTrusted svc (record { peer = peer; session_id = id })
        (find_session (record { peer = peer; session_id = id }) svc.sessions) refl t

  checked_text-IsTrusted :
      (svc : Service) (peer : String) (text : Option String)
      → AllTrusted svc
      → TrustedIf (checked_text svc peer text).0 × AllTrusted (checked_text svc peer text).1
  checked_text-IsTrusted svc peer none t = (tt, t)
  checked_text-IsTrusted svc peer (some text) t =
      checked_id-IsTrusted svc peer (U.uuid_of_text text) t

  pub auth_checker-IsTrusted :
      (call : Call) (svc : Service)
      → AllTrusted svc
      → TrustedIf (auth_checker call svc).0 × AllTrusted (auth_checker call svc).1
  unfolding auth_checker
  auth_checker-IsTrusted call svc t = checked_text-IsTrusted svc call.peer call.connection_id t

  new_context-IsTrusted :
      (address : ℕ) (r : Option KuksaChannel × Service)
      → TrustedIf r.0
      → AllTrusted r.1
      → AllTrusted (new_context address r).1
  new_context-IsTrusted address (none, svc) t ts = ts
  new_context-IsTrusted address (some channel, svc) t (ts, us) = (ts, (t, us))

  context_or_new-IsTrusted :
      (call : Call) (svc : Service) (found : Option StreamChannel)
      → AllTrusted svc
      → AllTrusted (context_or_new call svc found).1
  context_or_new-IsTrusted call svc (some stream) t = t
  context_or_new-IsTrusted call svc none t =
      let (c, ts) = auth_checker-IsTrusted call svc t in
      new_context-IsTrusted call.address (auth_checker call svc) c ts

  with_session-IsTrusted :
      (svc : Service) (s : Session) (r : Result Json × KuksaChannel)
      → ((answer : Json) → r.0 ≡ ok answer → contains "error" answer ≡ false → IsTrusted r.1)
      → AllTrusted svc
      → AllTrusted (with_session svc s r).1
  with_session-IsTrusted svc s (err e, channel) t ts = ts
  with_session-IsTrusted svc s (ok answer, channel) t (ts, us) =
      elim (Bool-cases (contains "error" answer)) [
        | inl failed ↦ simp failed (ts, us)
        | inr fine ↦
            simp fine (put_session-IsTrusted s channel svc.sessions (t answer refl fine) ts, us)
      ]

  serve-AllTrusted : (rpc : Rpc) (svc : Service) → AllTrusted svc → AllTrusted (serve rpc svc)
  unfolding serve authorize_helper subscription_channel
  serve-AllTrusted (sign_in peer token id) svc t =
      with_session-IsTrusted svc _ (process_authorize key grpc_channel (U.uuid_text id) token)
        (λ answer h fine.
          let (passed, (authorized, held)) =
            process_authorize-HoldsToken key grpc_channel (U.uuid_text id) token answer h fine in
          inr (subst (λ x. W.verify key x ≡ ok tt) (sym held) passed, authorized))
        t
  serve-AllTrusted (check_session call) svc t = (auth_checker-IsTrusted call svc t).1
  serve-AllTrusted (open_stream call) svc t = context_or_new-IsTrusted call svc _ t

  -- Whatever calls come, in whatever order: each channel in the two maps of the service either has
  -- no rights, or holds a token that the key verifies.
  pub serve_all-AllTrusted :
      (rpcs : List Rpc) (svc : Service) → AllTrusted svc → AllTrusted (serve_all rpcs svc)
  unfolding serve_all
  serve_all-AllTrusted [] svc t = t
  serve_all-AllTrusted (rpc ∷ rpcs) svc t =
      serve_all-AllTrusted rpcs (serve rpc svc) (serve-AllTrusted rpc svc t)

  new_context-found :
      (address : ℕ) (r : Option KuksaChannel × Service) (stream : StreamChannel)
      → (new_context address r).0 ≡ some stream
      → find_context address (new_context address r).1.contexts ≡ some stream
  unfolding find_context
  new_context-found address (none, svc) stream h =
      absurd (let q : Path (Option StreamChannel) none (some stream) = h in cc)
  new_context-found address (some channel, svc) stream h = ground (arith, h)

  context_or_new-found :
      (call : Call) (svc : Service) (found : Option StreamChannel) (stream : StreamChannel)
      → find_context call.address svc.contexts ≡ found
      → (context_or_new call svc found).0 ≡ some stream
      → find_context call.address (context_or_new call svc found).1.contexts ≡ some stream
  context_or_new-found call svc (some known) stream e h = e ∙ h
  context_or_new-found call svc none stream e h =
      new_context-found call.address (auth_checker call svc) stream h

  -- Once a stream of subscriptions has been opened, a later call with a context at the same
  -- address gets its channel, whoever calls.
  pub subscription_channel_reused :
      (call later : Call) (svc : Service) (stream : StreamChannel)
      → (subscription_channel call svc).0 ≡ some stream
      → call.address ≡ later.address
      → (subscription_channel later (subscription_channel call svc).1).0 ≡ some stream
  unfolding subscription_channel
  subscription_channel_reused call later svc stream h same =
      ap (λ found. (context_or_new later (subscription_channel call svc).1 found).0)
        (ap (λ a. find_context a (subscription_channel call svc).1.contexts) (sym same)
          ∙ context_or_new-found call svc (find_context call.address svc.contexts) stream refl h)
