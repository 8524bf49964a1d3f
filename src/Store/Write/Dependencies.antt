-- ===== src/Store/Write/Dependencies.antt =====
-- The loop of `SaveModuleDependencies` over its dependencies.
use perseus.Prelude.{
  ℕ, ◌≡◌, inl, inr, Bool, true, false, ◌&&◌, ◌||◌, none, some, List, [], ◌∷◌, ◌++◌, arith, Text,
  codes, refl, sym, ◌∙◌, Bool-cases, ◌==◌, ==_iff, ==_refl, if◌then◌else◌, trim_prefix,
}
use perseus.Store.Postgres.{Postgres, SemverLaws}
use perseus.Store.Session.{Session, VersionRow, Db, lift, ◌>>=◌}
use perseus.Store.Write.{Version, Pair, has_pair, has_version_id, write_dependencies, first}
use perseus.Store.Ends.{Ends, Ends-weaken, Later, Later-trans, Failed, Failed-trans}
use perseus.Store.Valid.{IsValid}
use perseus.Store.Graph.{
  Node, node_eq, version_id, depends, version_id-congr, version_id-inj, node_eq_refl,
}
use perseus.Store.Write.Versions.{Casts}
use perseus.Store.Write.Nodes.{NodeWritten, depends-written, bind-node}
use perseus.Store.Write.Insert.{Distinct, Known, has_pair-append, Distinct-snoc, Known-snoc}

-- Whether `b` is the node of a name and a version as they are written: the "v" in front is dropped.
unfoldable pub is_node : Postgres → Text → Text → Node → Bool
unfolding node_eq
is_node pg name ver b = elim (pg.semver_cast (trim_prefix ver (codes "v"))) [
  | none ↦ false
  | some v ↦ node_eq pg (name, v) b
]

pub is_node-Casts :
    (pg : Postgres) (name ver v : Text) (b : Node)
    → Casts pg ver v
    → is_node pg name ver b ≡ node_eq pg (name, v) b
unfolding is_node
is_node-Casts pg name ver v b c = rw (c, is_node)

-- Whether `b` is one of the dependencies of a request.
unfoldable pub is_target : Postgres → List Version → Node → Bool
unfolding is_node
is_target pg [] b = false
is_target pg (d ∷ deps) b = is_node pg d.module_id d.sem_ver b || is_target pg deps b

-- After the loop: the nodes are there, the edges are as they were, and the rows to insert are
-- those before the loop and one for each dependency.
pub record Collected (pg : Postgres) (dependent : ℕ) (deps : List Version) (rows : List Pair)
    (s : Session) (rows' : List Pair) (s' : Session) : Type 0 where
  pub valid : IsValid pg s'
  pub later : Later s s'
  pub same_edges : (x y : Node) → depends pg s'.tables x y ≡ depends pg s.tables x y
  pub keeps_nodes :
      (b : Node) (i : ℕ) → version_id pg s.tables b ≡ some i → version_id pg s'.tables b ≡ some i
  pub keeps_ids :
      (i : ℕ)
      → has_version_id i s.tables.versions ≡ true
      → has_version_id i s'.tables.versions ≡ true
  pub pairs :
      (b : Node) (j : ℕ)
      → version_id pg s'.tables b ≡ some j
      → has_pair dependent j rows' ≡ (is_target pg deps b || has_pair dependent j rows)
  pub stored :
      (b : Node) → is_target pg deps b ≡ true → (j : ℕ) × (version_id pg s'.tables b ≡ some j)
  pub distinct : Distinct rows'
  pub known : Known dependent s'.tables.versions rows'

Known-keeps :
    (dependent : ℕ) (versions versions' : List VersionRow) (ps : List Pair)
    → ((i : ℕ) → has_version_id i versions ≡ true → has_version_id i versions' ≡ true)
    → Known dependent versions ps
    → Known dependent versions' ps
Known-keeps dependent versions versions' [] h k = tt
Known-keeps dependent versions versions' ((i, j) ∷ ps) h (a, b, k) =
    (a, h j b, Known-keeps dependent versions versions' ps h k)

pub keeps_node :
    (pg : Postgres) (laws : SemverLaws pg) (a : Node) (s s' : Session) (id : ℕ)
    → NodeWritten pg a s id s'
    → (b : Node) (i : ℕ) → version_id pg s.tables b ≡ some i
    → version_id pg s'.tables b ≡ some i
keeps_node pg laws a s s' id w b i h = w.finds b ∙ elim (Bool-cases (node_eq pg a b)) [
  | inr e ↦ rw e h
  | inl e ↦ rw e (elim w.unused [
    | inl old ↦ sym old ∙ version_id-congr pg laws s.tables a b e ∙ h
    | inr (new, fresh) ↦ absurd (cc (sym new ∙ version_id-congr pg laws s.tables a b e ∙ h))
  ])
]

-- A row of ids is the row of a node exactly if the node is the one written.
pub id_eq-node_eq :
    (pg : Postgres) (laws : SemverLaws pg) (s : Session) (a b : Node) (k j : ℕ)
    → IsValid pg s
    → version_id pg s.tables a ≡ some k
    → version_id pg s.tables b ≡ some j
    → (k == j) ≡ node_eq pg a b
id_eq-node_eq pg laws s a b k j valid p q = elim (Bool-cases (node_eq pg a b)) [
  | inl e ↦
      let same : some k ≡ some j = sym p ∙ version_id-congr pg laws s.tables a b e ∙ q in
      rw e ((==_iff k j).1 (ground arith))
  | inr e ↦ rw e (elim (Bool-cases (k == j)) [
    | inr f ↦ f
    | inl f ↦
        let equal : node_eq pg a b ≡ true =
          version_id-inj pg laws s a b k valid p (rw (sym ((==_iff k j).0 f)) at q) in
        cc
  ])
]

-- The skip of a duplicate in the loop.
abbrev add_pair : ℕ → ℕ → List Pair → List Pair
add_pair i j rows = if has_pair i j rows then rows else rows ++ (i, j) ∷ []

has_pair-add_pair :
    (i j l : ℕ) (rows : List Pair)
    → has_pair i l (add_pair i j rows) ≡ ((j == l) || has_pair i l rows)
unfolding has_pair
has_pair-add_pair i j l rows = elim (Bool-cases (has_pair i j rows)) [
  | inl old ↦
      rw old (elim (Bool-cases (j == l)) [ inl e ↦ rw (e, ← (==_iff j l).0 e) old | inr e ↦ rw e ])
  | inr new ↦
      rw (new, has_pair-append i l rows ((i, j) ∷ []), ==_refl i)
        (or_swap (has_pair i l rows) (j == l))
]
  where
    or_swap : (a b : Bool) → (a || ((true && b) || false)) ≡ (b || a)
    or_swap a b = ground arith

Distinct-add_pair : (i j : ℕ) (rows : List Pair) → Distinct rows → Distinct (add_pair i j rows)
Distinct-add_pair i j rows d = elim (Bool-cases (has_pair i j rows)) [
  | inl old ↦ rw old d
  | inr new ↦ rw new (Distinct-snoc i j rows new d)
]

Known-add_pair :
    (i j : ℕ) (versions : List VersionRow) (rows : List Pair)
    → has_version_id j versions ≡ true
    → Known i versions rows
    → Known i versions (add_pair i j rows)
Known-add_pair i j versions rows h k = elim (Bool-cases (has_pair i j rows)) [
  | inl old ↦ rw old k
  | inr new ↦ rw new (Known-snoc i j versions rows h k)
]

module _ (pg : Postgres) (laws : SemverLaws pg) (dependent : ℕ) (d : Version) (deps : List Version)
    (rows : List Pair) where
  -- One round of the loop and the rest of it make the loop.
  collect :
      (v : Text) (id : ℕ) (s t : Session) (rows' : List Pair) (u : Session)
      → IsValid pg s
      → Casts pg d.sem_ver v
      → NodeWritten pg (d.module_id, v) s id t
      → Collected pg dependent deps (add_pair dependent id rows) t rows' u
      → Collected pg dependent (d ∷ deps) rows s rows' u
  unfolding is_target
  collect v id s t rows' u valid c w r = record {
    valid = r.valid;
    later = Later-trans w.later r.later;
    same_edges =
        λ x y. r.same_edges x y ∙ depends-written pg laws (d.module_id, v) s t id valid w x y;
    keeps_nodes = λ b i h. r.keeps_nodes b i (keeps_node pg laws (d.module_id, v) s t id w b i h);
    keeps_ids = λ i h. r.keeps_ids i (w.keeps i h);
    pairs = λ b j h.
        r.pairs b j h
        ∙ rw
            (
              has_pair-add_pair dependent id j rows,
              id_eq-node_eq pg laws u (d.module_id, v) b id j r.valid
                  (r.keeps_nodes (d.module_id, v) id here) h,
              is_node-Casts pg d.module_id d.sem_ver v b c,
            )
            (or_swap (is_target pg deps b) (node_eq pg (d.module_id, v) b)
              (has_pair dependent j rows));
    stored = λ b h. elim (Bool-cases (node_eq pg (d.module_id, v) b)) [
      | inl e ↦ (
        id,
        sym (version_id-congr pg laws u.tables (d.module_id, v) b e)
            ∙ r.keeps_nodes (d.module_id, v) id here,
      )
      | inr e ↦ r.stored b (rw (is_node-Casts pg d.module_id d.sem_ver v b c, e) at h)
    ];
    distinct = r.distinct;
    known = r.known;
  }
    where
      here : version_id pg t.tables (d.module_id, v) ≡ some id
      here = w.finds (d.module_id, v) ∙ rw (node_eq_refl pg laws (d.module_id, v))

      or_swap : (a b e : Bool) → (a || (b || e)) ≡ ((b || a) || e)
      or_swap a b e = ground arith

-- From a valid database and distinct rows, the loop ends with the rows for its dependencies.
pub write_dependencies-Ends :
    (pg : Postgres) (laws : SemverLaws pg) (dependent : ℕ) (deps : List Version) (rows : List Pair)
    (s : Session)
    → IsValid pg s
    → Distinct rows
    → Known dependent s.tables.versions rows
    → Ends
        (Collected pg dependent deps rows s)
        (Failed s)
        (write_dependencies pg dependent deps rows s)
unfolding write_dependencies is_target
write_dependencies-Ends pg laws dependent [] rows s valid distinct known = record {
  valid = valid;
  later = omega arith;
  same_edges = λ x y. refl;
  keeps_nodes = λ b i h. h;
  keeps_ids = λ i h. h;
  pairs = λ b j h. refl;
  stored = λ b h. absurd (cc);
  distinct = distinct;
  known = known;
}
write_dependencies-Ends pg laws dependent (d ∷ deps) rows s valid distinct known =
    bind-node pg laws d.module_id [] d.sem_ver (Collected pg dependent (d ∷ deps) rows s) after s
      valid
      (λ id t (v, c, w).
        Ends-weaken (Collected pg dependent deps (add_pair dependent id rows) t)
          (Collected pg dependent (d ∷ deps) rows s) (Failed t) (Failed s) _
          (write_dependencies-Ends pg laws dependent deps (add_pair dependent id rows) t w.valid
            (Distinct-add_pair dependent id rows distinct)
            (Known-add_pair dependent id t.tables.versions rows w.has_id
              (Known-keeps dependent s.tables.versions t.tables.versions rows w.keeps known)))
          (λ rows' u r. collect pg laws dependent d deps rows v id s t rows' u valid c w r)
          (λ e u f. Failed-trans e u w.later f))
  where
    after : List ℕ → Db (List Pair)
    after vids = lift (first vids) >>= λ dependee.
        write_dependencies pg dependent deps (add_pair dependent dependee rows)
