-- ===== src/Edify/Table/Tests.antt =====
-- The function table of edify/expr.c with three of the builtins.
use sc7731_sc8830_bootable_r.Base.{ℕ, List, [], ◌∷◌, ◌≡◌, ◌≢◌, some, none, arith, codes}
use sc7731_sc8830_bootable_r.Edify.Builtins.{ifelse_fn, abort_fn, sleep_fn}
use sc7731_sc8830_bootable_r.Edify.Table.Lookup.{find_function_registered}
use sc7731_sc8830_bootable_r.Edify.Table.Sorted.{All, In, Distinct}
use sc7731_sc8830_bootable_r.Edify.Table.{
  NamedFunction, register_all, no_functions, finish_registration, find_function,
}

abbrev three : List NamedFunction
three =
    record { name = codes "sleep"; fn = sleep_fn }
    ∷ record { name = codes "ifelse"; fn = ifelse_fn }
    ∷ record { name = codes "abort"; fn = abort_fn }
    ∷ []

heads_differ : {a b : ℕ} {s t : List ℕ} → a ≢ b → ◌≢◌ {A = List ℕ} (a ∷ s) (b ∷ t)
heads_differ ne e = ne (cc (e))

three-Distinct : Distinct three
three-Distinct = (
  (heads_differ (λ e. omega (arith, e)), (heads_differ (λ e. omega (arith, e)), tt)),
  ((heads_differ (λ e. omega (arith, e)), tt), (tt, tt)),
)

find_function_registered_example :
    ((x : NamedFunction)
      → In x three
      → find_function (finish_registration (register_all no_functions three)) x.name ≡ some x.fn)
    × ((name : List ℕ)
        → All (λ x. x.name ≢ name) three
        → find_function (finish_registration (register_all no_functions three)) name ≡ none)
find_function_registered_example = find_function_registered three three-Distinct
