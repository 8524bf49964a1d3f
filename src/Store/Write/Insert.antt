-- ===== src/Store/Write/Insert.antt =====
-- The command that writes the rows of module_dependency: with distinct rows over existing ids it
-- goes through, and adds exactly those rows.
use perseus.Prelude.{
  ℕ, ◌≡◌, inl, inr, Bool, true, false, ◌&&◌, ◌||◌, List, [], ◌∷◌, ◌++◌, arith, refl, sym, ◌∙◌,
  Bool-cases, ◌==◌, ==_iff, ok,
}
use perseus.Store.Session.{Tables, VersionRow}
use perseus.Store.Write.{Pair, has_pair, has_dependency, has_version_id, insert_row, insert_rows}
use perseus.Store.Valid.{DependenciesOk}

abbrev pub Distinct : List Pair → Type 0
Distinct [] = Unit
Distinct ((i, j) ∷ ps) = (has_pair i j ps ≡ false) × Distinct ps

-- No row is among those that the command has touched.
abbrev pub Untouched : List Pair → List Pair → Type 0
Untouched touched [] = Unit
Untouched touched ((i, j) ∷ ps) = (has_pair i j touched ≡ false) × Untouched touched ps

-- The rows start at one dependent, and their ids are those of versions.
abbrev pub Known : ℕ → List VersionRow → List Pair → Type 0
Known dependent versions [] = Unit
Known dependent versions ((i, j) ∷ ps) =
    (i ≡ dependent) × (has_version_id j versions ≡ true) × Known dependent versions ps

pub has_pair-append :
    (i j : ℕ) (ps qs : List Pair) → has_pair i j (ps ++ qs) ≡ (has_pair i j ps || has_pair i j qs)
unfolding has_pair
has_pair-append i j [] qs = refl
has_pair-append i j ((k, l) ∷ ps) qs = ground (arith, has_pair-append i j ps qs)

pub Distinct-snoc :
    (i j : ℕ) (ps : List Pair)
    → has_pair i j ps ≡ false
    → Distinct ps
    → Distinct (ps ++ (i, j) ∷ [])
unfolding has_pair
Distinct-snoc i j [] h d = (refl, tt)
Distinct-snoc i j ((k, l) ∷ ps) h (a, d) =
    (ground (arith, has_pair-append k l ps ((i, j) ∷ [])), Distinct-snoc i j ps (ground arith) d)

pub Known-snoc :
    (dependent j : ℕ) (versions : List VersionRow) (ps : List Pair)
    → has_version_id j versions ≡ true
    → Known dependent versions ps
    → Known dependent versions (ps ++ (dependent, j) ∷ [])
Known-snoc dependent j versions [] h k = (refl, h, tt)
Known-snoc dependent j versions ((i, l) ∷ ps) h (a, b, k) =
    (a, b, Known-snoc dependent j versions ps h k)

Untouched-cons :
    (i j : ℕ) (touched ps : List Pair)
    → has_pair i j ps ≡ false
    → Untouched touched ps
    → Untouched ((i, j) ∷ touched) ps
unfolding has_pair
Untouched-cons i j touched [] h u = tt
Untouched-cons i j touched ((k, l) ∷ ps) h (a, u) =
    (ground arith, Untouched-cons i j touched ps (ground arith) u)

pub Untouched-nil : (ps : List Pair) → Untouched [] ps
unfolding has_pair
Untouched-nil [] = tt
Untouched-nil ((i, j) ∷ ps) = (refl, Untouched-nil ps)

-- The tables after the rows have been inserted.
pub record Inserted (rows : List Pair) (t t' : Tables) : Type 0 where
  pub same_modules : t'.modules ≡ t.modules
  pub same_versions : t'.versions ≡ t.versions
  pub dependencies_ok : DependenciesOk t'.versions t'.dependencies
  pub edges :
      (i j : ℕ)
      → has_dependency i j t'.dependencies
        ≡ (has_pair i j rows || has_dependency i j t.dependencies)

-- One row: it is there afterwards, and nothing else is new.
insert_row-ok :
    (i j : ℕ) (touched : List Pair) (t : Tables)
    → has_pair i j touched ≡ false
    → has_version_id i t.versions ≡ true
    → has_version_id j t.versions ≡ true
    → DependenciesOk t.versions t.dependencies
    → (t' : Tables) × (insert_row i j touched t ≡ ok t') × Inserted ((i, j) ∷ []) t t'
unfolding has_pair has_dependency
insert_row-ok i j touched t u hi hj ok_before =
    elim (Bool-cases (has_dependency i j t.dependencies)) [
      | inl old ↦ (
        t,
        rw (u, old),
        record {
          same_modules = refl;
          same_versions = refl;
          dependencies_ok = ok_before;
          edges = λ k l. already k l old;
        },
      )
      | inr new ↦ (
        record t { dependencies = record { dependent_id = i; dependee_id = j } ∷ t.dependencies },
        rw (u, new, hi, hj),
        record {
          same_modules = refl;
          same_versions = refl;
          dependencies_ok = (hi, hj, new, ok_before);
          edges = λ k l. ground arith;
        },
      )
    ]
  where
    already :
        (k l : ℕ)
        → has_dependency i j t.dependencies ≡ true
        → has_dependency k l t.dependencies
          ≡ (((i == k && j == l) || false) || has_dependency k l t.dependencies)
    already k l old = elim (Bool-cases (i == k && j == l)) [
      | inl e ↦
          rw e (rw (sym ((==_iff i k).0 (ground arith)), sym ((==_iff j l).0 (ground arith))) old)
      | inr e ↦ rw e
    ]

has_pair-cons :
    (i j k l : ℕ) (ps : List Pair)
    → has_pair k l ((i, j) ∷ ps) ≡ (has_pair k l ps || has_pair k l ((i, j) ∷ []))
unfolding has_pair
has_pair-cons i j k l ps = ground arith

-- Distinct rows that the command has not touched, over known ids, all go in: no row is affected
-- twice, and no foreign key fails.
pub insert_rows-ok :
    (dependent : ℕ) (rows touched : List Pair) (t : Tables)
    → Distinct rows
    → Untouched touched rows
    → Known dependent t.versions rows
    → has_version_id dependent t.versions ≡ true
    → DependenciesOk t.versions t.dependencies
    → (t' : Tables) × (insert_rows rows touched t ≡ ok t') × Inserted rows t t'
unfolding insert_rows
insert_rows-ok dependent [] touched t d u k h ok_before = (
  t,
  refl,
  record {
    same_modules = refl;
    same_versions = refl;
    dependencies_ok = ok_before;
    edges = λ i j. refl;
  },
)
insert_rows-ok dependent ((i, j) ∷ rows) touched t (d, ds) (u, us) (k, l, ks) h ok_before =
    let (t', e, one) = insert_row-ok i j touched t u (rw k h) l ok_before in
    let (t'', e', rest) =
      insert_rows-ok dependent rows ((i, j) ∷ touched) t' ds (Untouched-cons i j touched rows d us)
        (rw one.same_versions ks) (rw one.same_versions h) one.dependencies_ok in
    (
      t'',
      rw (e, insert_rows) e',
      record {
        same_modules = rest.same_modules ∙ one.same_modules;
        same_versions = rest.same_versions ∙ one.same_versions;
        dependencies_ok = rest.dependencies_ok;
        edges = λ a b.
            rest.edges a b
            ∙ rw (one.edges a b, has_pair-cons i j a b rows)
                (or_assoc (has_pair a b rows) (has_pair a b ((i, j) ∷ []))
                  (has_dependency a b t.dependencies));
      },
    )
  where
    or_assoc : (a b c : Bool) → (a || (b || c)) ≡ ((a || b) || c)
    or_assoc a b c = ground arith
