-- ===== src/Plan/Evaluate/Waivers.antt =====
-- A fact that is there with the value None, and a waiver that is not.
use imperial_auto_governor.Common.{String, ◌≡◌, refl, Bool, true, none, some, [], ◌∷◌, arith}
use imperial_auto_governor.Common.Dict.{Dict, lookup}
use imperial_auto_governor.Plan.Json.{Json, Builtins, null, json_eq}
use imperial_auto_governor.Plan.Condition.{PlanCondition, Facts, waiver_matches, condition_result}
use imperial_auto_governor.Plan.Book.{FailureKind}
use imperial_auto_governor.Plan.Evaluate.{failures_of, waiver_key}

null-matches :
    (facts : Facts) (path : String)
    → lookup path facts ≡ some null
    → waiver_matches null facts path null ≡ true
unfolding waiver_matches json_eq
null-matches facts path h = rw h refl

actual-null :
    (py : Builtins) (facts : Facts) (c : PlanCondition)
    → lookup c.fact facts ≡ some null
    → (condition_result py c facts).1 ≡ null
unfolding condition_result
actual-null py facts c h = ground arith

-- A condition whose fact is there with the value None is reported neither as a failed expectation nor
-- as a met stop condition, though nothing was waived for it.
pub null_fact-not_reported :
    (py : Builtins) (facts : Facts) (waivers : Dict Json) (id : String) (kind : FailureKind)
    (failing : Bool) (c : PlanCondition)
    → lookup c.fact facts ≡ some null
    → lookup (waiver_key id kind c.fact) waivers ≡ none
    → failures_of py facts waivers id kind failing (c ∷ []) ≡ []
unfolding failures_of condition_result
null_fact-not_reported py facts waivers id kind failing c h none_waived =
    let waived = null-matches facts c.fact h in
    let actual = actual-null py facts c h in ground arith
