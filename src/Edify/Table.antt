-- ===== src/Edify/Table.antt =====
-- The function table of edify/expr.c: RegisterFunction, FinishRegistration and FindFunction, with the
-- C library's strcmp, qsort and bsearch.
mod Order
mod Sorted
pub mod Lookup
mod Tests
use Prim.Native.Nat.{Ordering, compare}
use sc7731_sc8830_bootable_r.Base.{
  ℕ, zero, suc, ◌+◌, ◌*◌, ◌/◌, List, [], ◌∷◌, ◌++◌, Option, none, some, leb, ltb, if◌then◌else◌,
  length, get_elem?,
}
use sc7731_sc8830_bootable_r.Edify.Expr.{Function}

pub record NamedFunction : Type 0 where
  pub name : List ℕ
  pub fn : Function

-- fn_size and the first fn_entries entries of fn_table
pub record FunctionTable : Type 0 where
  pub fn_size : ℕ
  pub fn_table : List NamedFunction

unfoldable pub register_function : FunctionTable → NamedFunction → FunctionTable
register_function t x = record {
  fn_size = (if leb t.fn_size (length t.fn_table) then t.fn_size * 2 + 1 else t.fn_size);
  fn_table = t.fn_table ++ x ∷ [];
}

-- The sign of strcmp(a, b)
unfoldable pub strcmp : List ℕ → List ℕ → Ordering
strcmp [] [] = Ordering.eq
strcmp [] (b ∷ t) = Ordering.lt
strcmp (a ∷ s) [] = Ordering.gt
strcmp (a ∷ s) (b ∷ t) =
    let rest = strcmp s t in
    elim (compare a b) [
      | Ordering.lt ↦ Ordering.lt
      | Ordering.eq ↦ rest
      | Ordering.gt ↦ Ordering.gt
    ]

unfoldable pub fn_entry_compare : NamedFunction → NamedFunction → Ordering
fn_entry_compare a b = strcmp a.name b.name

-- qsort
unfoldable pub insert : NamedFunction → List NamedFunction → List NamedFunction
unfolding fn_entry_compare
insert x [] = x ∷ []
insert x (y ∷ ys) =
    let rest = insert x ys in
    elim (fn_entry_compare x y) [ Ordering.gt ↦ y ∷ rest | _ ↦ x ∷ y ∷ ys ]

unfoldable pub qsort : List NamedFunction → List NamedFunction
qsort [] = []
qsort (x ∷ xs) = insert x (qsort xs)

unfoldable pub finish_registration : FunctionTable → FunctionTable
finish_registration t = record t { fn_table = qsort t.fn_table }

-- bsearch between `lo` and `hi`, which halves the distance in each round
unfoldable pub bsearch : ℕ → List ℕ → List NamedFunction → ℕ → ℕ → Option NamedFunction
bsearch zero key es lo hi = none
bsearch (suc fuel) key es lo hi =
    let mid = (lo + hi) / 2 in
    let left = bsearch fuel key es lo mid in
    let right = bsearch fuel key es (mid + 1) hi in
    if ltb lo hi
    then (elim (get_elem? es mid) [
      | none ↦ none
      | some e ↦ elim (strcmp key e.name) [
        | Ordering.lt ↦ left
        | Ordering.eq ↦ some e
        | Ordering.gt ↦ right
      ]
    ])
    else none

-- `none` is NULL.
unfoldable pub find_function : FunctionTable → List ℕ → Option Function
find_function t name =
    elim (bsearch (length t.fn_table + 1) name t.fn_table 0 (length t.fn_table)) [
      | none ↦ none
      | some nf ↦ some nf.fn
    ]

-- Registrations in order, from the empty table on.
unfoldable pub register_all : FunctionTable → List NamedFunction → FunctionTable
register_all t [] = t
register_all t (x ∷ xs) = register_all (register_function t x) xs

abbrev pub no_functions : FunctionTable
no_functions = record { fn_size = 0; fn_table = [] }
