-- ===== src/Grpc/Get/Counting.antt =====
-- How many values a call of get answers with.
use kuksa_val.Channel.{KuksaChannel}
use kuksa_val.Command.{RequestValidator}
use kuksa_val.Database.MetaData.{Outcome, out_of_fuel, undefined, answered}
use kuksa_val.Database.Nodes.{Database}
use kuksa_val.Exception.{Result, ok, err}
use kuksa_val.External.{BoostText, Jsoncons, Regex, Clock, Uuids}
use kuksa_val.Grpc.{RequestType, Status, attribute_string, attribute_or_default, error_status}
use kuksa_val.Grpc.Get.{
  GetProgress, get_failed, get_status, add_value, answer_value, get_answered, get_next,
  path_request, get_processed, get_loop,
}
use kuksa_val.Grpc.Values.{Value}
use kuksa_val.Json.{Json, contains}
use kuksa_val.Prelude.{
  ℕ, suc, ◌+◌, ◌≤◌, String, ◌≡◌, sym, ap, ◌∙◌, true, false, Option, none, some, List, [], ◌∷◌,
  length, arith, length-append, Bool-cases, inl, inr,
}

-- The values so far.
abbrev pub count : GetProgress → ℕ
count p = length p.reply.values

-- So many values have been added at most, and just so many if nothing has failed; a failure stays.
pub record Counted (paths : ℕ) (p p' : GetProgress) : Type 0 where
  pub most : count p' ≤ count p + paths
  pub all_there : p'.single_failure ≡ false → count p' ≡ count p + paths
  pub failure_stays : p'.single_failure ≡ false → p.single_failure ≡ false

module _ ⦃J : Jsoncons⦄ where
  true-ne-false : true ≡ false → ⊥
  true-ne-false h = cc

  get_failed-Counted : (p : GetProgress) → Counted 1 p (get_failed p)
  unfolding get_failed
  get_failed-Counted p = record {
    most = omega arith;
    all_there = λ h. absurd (true-ne-false h);
    failure_stays = λ h. absurd (true-ne-false h);
  }

  get_status-Counted : (p : GetProgress) (r : Result Status) → Counted 1 p (get_status p r)
  unfolding get_failed
  get_status-Counted p (err e) = get_failed-Counted p
  get_status-Counted p (ok status) = record {
    most = omega arith;
    all_there = λ h. absurd (true-ne-false h);
    failure_stays = λ h. absurd (true-ne-false h);
  }

  add_value-Counted :
      (p : GetProgress) (r : Result (Unit {0}) × Value) → Counted 1 p (add_value p r)
  unfolding add_value get_failed
  add_value-Counted p (ok tt, value) = record {
    most = omega (arith, length-append p.reply.values (value ∷ []));
    all_there = λ h. length-append p.reply.values (value ∷ []);
    failure_stays = λ h. h;
  }
  add_value-Counted p (err e, value) = record {
    most = omega (arith, length-append p.reply.values (value ∷ []));
    all_there = λ h. absurd (true-ne-false h);
    failure_stays = λ h. absurd (true-ne-false h);
  }

  module _ ⦃B : BoostText⦄ ⦃R : Regex⦄ ⦃C : Clock⦄ ⦃V : RequestValidator⦄ ⦃U : Uuids⦄ (fuel : ℕ)
      (channel : KuksaChannel) (db : Database) (type : RequestType) where
    get_answered-Counted :
        (path attr : String) (p : GetProgress) (r : Result Json)
        → Counted 1 p (get_answered db type path attr p r)
    unfolding get_answered
    get_answered-Counted path attr p (err e) = get_failed-Counted p
    get_answered-Counted path attr p (ok answer) = elim (Bool-cases (contains "error" answer)) [
      | inl failed ↦ simp failed (get_status-Counted p (error_status answer))
      | inr fine ↦ simp fine (add_value-Counted p (answer_value db type path attr answer))
    ]

    get_next-Counted :
        (path : String) (p p' : GetProgress) (paths : ℕ) (next : GetProgress → Option GetProgress)
        (outcome : Outcome)
        → ((q q' : GetProgress) → next q ≡ some q' → Counted paths q q')
        → get_next db type path p next outcome ≡ some p'
        → Counted (suc paths) p p'
    get_next-Counted path p p' paths next (answered answer) later h =
        let attr = attribute_or_default (attribute_string type) in
        let one = get_answered-Counted path attr p answer in
        let rest = later (get_answered db type path attr p answer) p' h in
        record {
          most = omega (arith, one.most, rest.most);
          all_there =
              λ fine. omega (arith, one.all_there (rest.failure_stays fine), rest.all_there fine);
          failure_stays = λ fine. one.failure_stays (rest.failure_stays fine);
        }
    get_next-Counted path p p' paths next out_of_fuel later h =
        absurd (let q : Path (Option GetProgress) none (some p') = h in cc)
    get_next-Counted path p p' paths next undefined later h =
        absurd (let q : Path (Option GetProgress) none (some p') = h in cc)

    -- The loop of a call of get adds at most one value for each path, and exactly one for each
    -- path if it ends without a failure; a failure stays recorded.
    pub get_loop-Counted :
        (paths : List (ℕ × String)) (p p' : GetProgress)
        → get_loop fuel channel db type paths p ≡ some p'
        → Counted (length paths) p p'
    unfolding get_loop
    get_loop-Counted [] p p' h =
        let same : p ≡ p' = cc in
        record {
          most = omega (arith, ap count (sym same));
          all_there = λ fine. omega (arith, ap count (sym same));
          failure_stays = λ fine. ap (λ (q : GetProgress). q.single_failure) same ∙ fine;
        }
    get_loop-Counted ((id, path) ∷ paths) p p' h =
        get_next-Counted path p p' (length paths) (get_loop fuel channel db type paths)
          (get_processed fuel channel db type (path_request type id path))
          (λ q q' next. get_loop-Counted paths q q' next) h
