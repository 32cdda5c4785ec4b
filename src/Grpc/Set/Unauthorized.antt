-- ===== src/Grpc/Set/Unauthorized.antt =====
-- What a call of set changes for clients without rights, and an answer that it takes for a success.
use kuksa_val.Access.{
  check_write_access, check_signal_access, channel_permissions, permission_for, exact_permission,
  pattern_permission, matched_permission,
}
use kuksa_val.Channel.{KuksaChannel}
use kuksa_val.Command.{RequestValidator}
use kuksa_val.Command.Query.Unprivileged.{HasNoRights, process_set-kept}
use kuksa_val.Command.Set.{
  SetArguments, set_arguments, set_guards, set_guarded, set_error, unknown_error, process_set,
}
use kuksa_val.Database.Signals.{Server, set_signal}
use kuksa_val.Database.Nodes.{datatype_for_path}
use kuksa_val.Exception.{Result, ok, err, gen_exception}
use kuksa_val.External.{BoostText, Jsoncons, Regex, Clock, Uuids}
use kuksa_val.Grpc.{
  Service, Call, RequestType, metadata, default_channel, find_session, auth_checker, checked_id,
  checked_text,
}
use kuksa_val.Grpc.Set.{
  SetProgress, set_answered, set_members, set_value, set_loop, set_checked, set_call,
}
use kuksa_val.Grpc.Values.{Value}
use kuksa_val.Json.{obj, end, Members, lookup}
use kuksa_val.Numbers.{Floats}
use kuksa_val.Path.{VssPath, from_vss}
use kuksa_val.Prelude.{
  ℕ, String, ◌≡◌, ◌≢◌, refl, ◌∙◌, Bool, true, false, Option, none, some, List, [], ◌∷◌,
}
use kuksa_val.Prelude.Int.{pos}
use kuksa_val.Sanitizer.Numeric.{Streams}

module _ ⦃J : Jsoncons⦄ ⦃R : Regex⦄ where
  -- A channel that the service has made by itself may not write to any path.
  pub default_channel_denied :
      (path : VssPath)
      → J.parse "{}" ≡ ok (obj end)
      → check_write_access default_channel path ≢ ok true
  unfolding check_write_access check_signal_access channel_permissions permission_for
      exact_permission pattern_permission matched_permission lookup
  default_channel_denied path plain allowed =
      let never : Path (Result Bool) (ok false) (ok true) = rw plain at allowed in cc

module _ ⦃J : Jsoncons⦄ ⦃B : BoostText⦄ ⦃R : Regex⦄ ⦃S : Streams⦄ ⦃F : Floats⦄ ⦃C : Clock⦄
    ⦃U : Uuids⦄ ⦃V : RequestValidator⦄ where
  set_value-kept :
      (channel : KuksaChannel) (attr : String) (id : ℕ) (v : Value) (ms : Members) (p : SetProgress)
      (s : Server) (r : Result String)
      → HasNoRights channel
      → (set_value channel attr id v ms p s r).1 ≡ s
  set_value-kept channel attr id v ms p s (err e) none_of = refl
  set_value-kept channel attr id v ms p s (ok datatype) none_of =
      process_set-kept channel (obj (set_members attr id v datatype ms)) s none_of

  set_loop-kept :
      (channel : KuksaChannel) (attr : String) (values : List (ℕ × Value)) (ms : Members)
      (p : SetProgress) (s : Server)
      → HasNoRights channel
      → (set_loop channel attr values ms p s).1 ≡ s
  unfolding set_loop
  set_loop-kept channel attr [] ms p s none_of = refl
  set_loop-kept channel attr ((id, v) ∷ values) ms p s none_of =
      set_loop-kept channel attr values _ _ _ none_of
      ∙ set_value-kept channel attr id v ms p s (datatype_for_path s.db (from_vss v.path)) none_of

  set_checked-kept :
      (type : RequestType) (values : List (ℕ × Value)) (s : Server) (channel : KuksaChannel)
      → HasNoRights channel
      → (set_checked type values s (some channel)).1 ≡ s
  set_checked-kept metadata values s channel none_of = refl
  set_checked-kept type values s channel none_of = set_loop-kept channel _ values _ _ s none_of

  -- A call of set changes neither tree, no subscription and no queue, if no session of its peer
  -- has the identifier in its metadata, or the metadata have none.
  pub set_call_unauthorized :
      (call : Call) (type : RequestType) (values : List (ℕ × Value)) (s : Server) (svc : Service)
      → J.parse "{}" ≡ ok (obj end)
      → ((text : String) (id : ℕ)
          → call.connection_id ≡ some text
          → U.uuid_of_text text ≡ ok id
          → find_session (record { peer = call.peer; session_id = id }) svc.sessions ≡ none)
      → (set_call call type values s svc).0.1 ≡ s
  unfolding set_call auth_checker
  set_call_unauthorized call type values s svc plain unknown = text_kept call.connection_id refl
    where
      id_kept :
          (text : String) (id : Result ℕ)
          → call.connection_id ≡ some text
          → U.uuid_of_text text ≡ id
          → (set_checked type values s (checked_id svc call.peer id).0).1 ≡ s
      id_kept text (err e) h₁ h₂ = refl
      id_kept text (ok id) h₁ h₂ = rw (unknown text id h₁ h₂) (
          set_checked-kept type values s default_channel
            ((λ path. default_channel_denied path plain), refl))

      text_kept :
          (text : Option String)
          → call.connection_id ≡ text
          → (set_checked type values s (checked_text svc call.peer text).0).1 ≡ s
      text_kept none h = refl
      text_kept (some text) h = id_kept text (U.uuid_of_text text) h refl

  -- If setSignal throws a genException for a value whose data type can be read and whose request
  -- passes the guards, the iteration counts as a success with status 200.
  pub set_value_unnoticed :
      (channel : KuksaChannel) (attr : String) (id : ℕ) (v : Value) (ms : Members) (p : SetProgress)
      (s : Server) (datatype msg : String) (a : SetArguments)
      → V.validate_set (obj (set_members attr id v datatype ms)) ≡ ok tt
      → set_arguments (obj (set_members attr id v datatype ms)) ≡ ok a
      → set_guards channel a s.db ≡ ok none
      → (set_signal a.path a.attribute a.value s).0 ≡ err (gen_exception msg)
      → (set_value channel attr id v ms p s (ok datatype)).0 ≡ (record p {
        status = record { code = pos 200; description = "Set request successfully processed" };
      })
  unfolding process_set set_guarded set_error unknown_error set_answered
  set_value_unnoticed channel attr id v ms p s datatype msg a valid read passed thrown =
      rw (valid, read, passed, thrown)
