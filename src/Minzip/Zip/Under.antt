-- ===== src/Minzip/Zip/Under.antt =====
-- The entries that mzExtractRecursive of minzip/Zip.c comes to.
use sc7731_sc8830_bootable_r.Base.Int.{ℤ, pos, negsuc}
use sc7731_sc8830_bootable_r.Base.{
  ℕ, List, [], ◌∷◌, Option, none, some, Bool, true, false, ◌≡◌, ◌==◌, if◌then◌else◌, get_elem?,
}
use sc7731_sc8830_bootable_r.Minzip.Zip.Order.{name_leb}
use sc7731_sc8830_bootable_r.Minzip.Zip.{ZipEntry, Parsed, ok, ◌>>=◌}

-- Whether a name begins with `z`
abbrev pub starts_with : List ℕ → List ℕ → Bool
starts_with [] name = true
starts_with (c ∷ z) [] = false
starts_with (c ∷ z) (d ∷ name) = if d == c then starts_with z name else false

-- The entries that begin with `z`
abbrev pub entries_under : List ℕ → List ZipEntry → List ZipEntry
entries_under z [] = []
entries_under z (e ∷ es) =
    let rest = entries_under z es in if starts_with z e.file_name then e ∷ rest else rest

-- One entry after the other, up to one that ends the walk
unfoldable pub visit_all :
    {W : Type 0} → (ZipEntry → W → Parsed (Option Bool × W)) → List ZipEntry → W → Parsed (Bool × W)
visit_all visit [] w = ok (true, w)
visit_all visit (e ∷ es) w =
    visit e w >>= λ r. elim r.0 [ none ↦ visit_all visit es r.1 | some result ↦ ok (result, r.1) ]

abbrev is_zero : ℤ → Bool
is_zero (pos n) = n == 0
is_zero (negsuc n) = false

module _ {W : Type 0} (visit : ZipEntry → W → Parsed (Option Bool × W)) (z : List ℕ) where
  -- What is known of the entries that are left once one was seen that begins with `z`
  abbrev Seen : Bool → List ZipEntry → Type 0
  Seen false es = Unit
  Seen true es =
      (p : ZipEntry) × (starts_with z p.file_name ≡ true)
      × ((i : ℕ) (a : ZipEntry) → get_elem? es i ≡ some a → name_leb p.file_name a.file_name ≡ true)
