-- ===== src/Response/Times.antt =====
-- The conversion of time stamps.
use kuksa_val.Exception.{ok, >>=-eq-ok, ok-injective}
use kuksa_val.External.{Jsoncons, Clock}
use kuksa_val.Json.{Json, str, Members, assign, remove, lookup, lookup-assign, lookup-remove}
use kuksa_val.Numbers.{uint32, uint64}
use kuksa_val.Prelude.{
  String, ◌≡◌, ◌≢◌, sym, subst, false, inl, inr, Option, none, some, str_eq, eq_iff, Bool-cases,
}
use kuksa_val.Prelude.Int.{ℤ}
use kuksa_val.Response.{convert_time_stamp, convert_with, replace_time_stamp, time_stamp_zero}

module _ ⦃C : Clock⦄ ⦃J : Jsoncons⦄ where
  -- A target with its numbers replaced by the one text `ts`.
  record IsConverted (target converted : Members) (ts : String) : Type 0 where
    pub text : lookup "ts" converted ≡ some (str ts)
    pub no_seconds : lookup "ts_s" converted ≡ none
    pub no_nanoseconds : lookup "ts_ns" converted ≡ none
    pub others :
        (k : String) → k ≢ "ts" → k ≢ "ts_s" → k ≢ "ts_ns" → lookup k converted ≡ lookup k target

  -- The text that the two numbers, each present or not, stand for.
  data StampOf : Option Json → Option Json → String → Type 0 where
    stamped :
        {s n : Json} (sec nsec : ℤ)
        → J.as_integer uint64 s ≡ ok sec
        → J.as_integer uint32 n ≡ ok nsec
        → StampOf (some s) (some n) (C.iso8601 sec nsec)
    no_stamp : {s : Json} → StampOf (some s) none "1970-01-01T00:00:00.0Z"
    unstamped : {n : Option Json} → StampOf none n "1970-01-01T00:00:00.0Z"

  not_str_eq : (s t : String) → t ≢ s → str_eq s t ≡ false
  not_str_eq s t h = elim (Bool-cases (str_eq s t)) [
    | inl e ↦ absurd (h (sym ((eq_iff s t).0 e)))
    | inr e ↦ e
  ]

  kept :
      (target : Members) (ts : String)
      → IsConverted target (assign "ts" (str ts) (remove "ts_ns" (remove "ts_s" target))) ts
  kept target ts = record {
    text = simp (lookup-assign, lookup-remove);
    no_seconds = simp (lookup-assign, lookup-remove);
    no_nanoseconds = simp (lookup-assign, lookup-remove);
    others = λ k a b c.
        simp (lookup-assign, lookup-remove)
          (rw (not_str_eq "ts" k a, not_str_eq "ts_ns" k c, not_str_eq "ts_s" k b));
  }

  zeroed :
      (target : Members) (ts : String)
      → IsConverted target (remove "ts_ns" (remove "ts_s" (assign "ts" (str ts) target))) ts
  zeroed target ts = record {
    text = simp (lookup-assign, lookup-remove);
    no_seconds = simp (lookup-assign, lookup-remove);
    no_nanoseconds = simp (lookup-assign, lookup-remove);
    others = λ k a b c.
        simp (lookup-assign, lookup-remove)
          (rw (not_str_eq "ts_ns" k c, not_str_eq "ts_s" k b, not_str_eq "ts" k a));
  }

  replaced :
      (target converted : Members) (ts_s ts_ns : Json)
      → replace_time_stamp ts_s ts_ns target ≡ ok converted
      → (ts : String) × StampOf (some ts_s) (some ts_ns) ts × IsConverted target converted ts
  unfolding replace_time_stamp
  replaced target converted ts_s ts_ns h =
      let (sec, read, h') = >>=-eq-ok (J.as_integer uint64 ts_s) _ h in
      let (nsec, read', h'') = >>=-eq-ok (J.as_integer uint32 ts_ns) _ h' in
      (
        C.iso8601 sec nsec,
        stamped sec nsec read read',
        subst (λ m. IsConverted target m (C.iso8601 sec nsec)) (ok-injective h'') (kept target _),
      )

  convert_with-IsConverted :
      (target converted : Members) (s n : Option Json)
      → convert_with s n target ≡ ok converted
      → (ts : String) × StampOf s n ts × IsConverted target converted ts
  unfolding convert_with time_stamp_zero
  convert_with-IsConverted target converted (some s) (some n) q = replaced target converted s n q
  convert_with-IsConverted target converted (some s) none q = (
    time_stamp_zero,
    no_stamp,
    subst (λ m. IsConverted target m time_stamp_zero) (ok-injective q) (zeroed target _),
  )
  convert_with-IsConverted target converted none n q = (
    time_stamp_zero,
    unstamped,
    subst (λ m. IsConverted target m time_stamp_zero) (ok-injective q) (zeroed target _),
  )

  -- Whenever the conversion succeeds, the members ts_s and ts_ns are gone, `ts` holds the text of
  -- the time that both gave, or of the time zero if one was missing, and every other member is as
  -- it was.
  convert_time_stamp-IsConverted :
      (target converted : Members)
      → convert_time_stamp target ≡ ok converted
      → (ts : String) × StampOf (lookup "ts_s" target) (lookup "ts_ns" target) ts
        × IsConverted target converted ts
  unfolding convert_time_stamp
  convert_time_stamp-IsConverted target converted h =
      convert_with-IsConverted target converted _ _ h
