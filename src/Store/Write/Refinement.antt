-- ===== src/Store/Write/Refinement.antt =====
-- `SaveModuleDependencies` implements the addition of a node's edges to the graph.
use perseus.Prelude.{
  ℕ, ◌≡◌, refl, Bool, true, false, List, [], ◌∷◌, arith, ok, err, is_empty, is_nil, if◌then◌else◌,
}
use perseus.Store.Postgres.{Postgres, SemverLaws}
use perseus.Store.Session.{Session, Tables, Db, lift, pure, ◌>>=◌}
use perseus.Store.Write.{
  Version, Pair, has_pair, has_version_id, save_module_dependencies, write_graph,
  write_dependencies, insert_dependencies, insert_rows, first,
}
use perseus.Store.Ends.{
  Ends, Ends-bind, Ends-weaken, bind-round_trip, Later, Later-trans, Failed, Failed-trans,
  Environmental,
}
use perseus.Store.Valid.{IsValid, IsValid-grow}
use perseus.Store.Write.Nodes.{Stored, bind-node}
use perseus.Store.Write.Insert.{Distinct, Known, Untouched-nil, Inserted, insert_rows-ok}
use perseus.Store.Write.Dependencies.{Collected, write_dependencies-Ends}
use perseus.Store.Write.Saved.{GraphSaved, graph_saved}
use perseus.Store.Write.Transaction.{RolledBack, transaction-Ends}

-- The rows go in: the command touches no row twice and breaks no foreign key.
insert_dependencies-Ends :
    (dependent : ℕ) (rows : List Pair) (pg : Postgres) (s : Session)
    → IsValid pg s
    → Distinct rows
    → Known dependent s.tables.versions rows
    → has_version_id dependent s.tables.versions ≡ true
    → Ends
        (λ _ s'. Later s s' × IsValid pg s' × Inserted rows s.tables s'.tables)
        (Failed s)
        (insert_dependencies rows s)
unfolding insert_dependencies
insert_dependencies-Ends dependent rows pg s valid distinct known has =
    bind-round_trip P (Failed s) insert s
      (λ faults. rw (goes.1, insert, Ends) (omega arith, valid_after faults, goes.2))
      (λ faults. omega arith)
  where
    P : Unit {0} → Session → Type 0
    P _ s' = Later s s' × IsValid pg s' × Inserted rows s.tables s'.tables

    insert : Db (Unit {0})
    insert t = elim (insert_rows rows [] t.tables) [
      | ok tables ↦ (ok tt, record t { tables = tables })
      | err e ↦ (err e, t)
    ]

    goes : (t' : Tables) × (insert_rows rows [] s.tables ≡ ok t') × Inserted rows s.tables t'
    goes =
        insert_rows-ok dependent rows [] s.tables distinct (Untouched-nil rows) known has
          valid.dependencies_ok

    valid_after : (faults : List Bool) → IsValid pg (record s { tables = goes.0; faults = faults })
    valid_after faults = record {
      modules_ok = rw (goes.2.same_modules) (valid.modules_ok);
      versions_ok = rw (goes.2.same_modules, goes.2.same_versions) (valid.versions_ok);
      dependencies_ok = goes.2.dependencies_ok;
    }

-- After the body of the transaction.
abbrev Done : Postgres → Version → List Version → Session → Unit {0} → Session → Type 0
Done pg root deps s _ s' = Later s s' × IsValid pg s' × GraphSaved pg root deps s.tables s'.tables

Inserted-nil : (pg : Postgres) (s : Session) → IsValid pg s → Inserted [] s.tables s.tables
Inserted-nil pg s valid = record {
  same_modules = refl;
  same_versions = refl;
  dependencies_ok = valid.dependencies_ok;
  edges = λ i j. unfold has_pair in refl;
}

module _ (pg : Postgres) (laws : SemverLaws pg) (root : Version) where
  after_root :
      (deps : List Version) (s : Session)
      → IsValid pg s
      → (id : ℕ) (t : Session) → Stored pg root.module_id root.sem_ver s id t
      → Ends (Done pg root deps s) (Failed s) (
          (if is_nil deps then pure tt else (do
            dependent ← lift (first (id ∷ []))
            rows ← write_dependencies pg dependent deps []
            insert_dependencies rows))
            t)
  after_root [] s valid id t (v, c, w) = (
    w.later,
    w.valid,
    graph_saved pg laws root [] v s t t id [] t.tables valid c w
        (unfold write_dependencies in write_dependencies-Ends pg laws id [] [] t w.valid tt tt)
        (Inserted-nil pg t w.valid),
  )
  after_root (d ∷ deps) s valid id t (v, c, w) =
      Ends-bind (Collected pg id (d ∷ deps) [] t) (Done pg root (d ∷ deps) s) (Failed s)
        (write_dependencies pg id (d ∷ deps) []) insert_dependencies t
        (Ends-weaken (Collected pg id (d ∷ deps) [] t) (Collected pg id (d ∷ deps) [] t) (Failed t)
          (Failed s) _ (write_dependencies-Ends pg laws id (d ∷ deps) [] t w.valid tt tt)
          (λ rows u r. r) (λ e u f. Failed-trans e u w.later f))
        (λ rows u r.
          let l : Later s u = Later-trans w.later r.later in
          Ends-weaken (λ _ s'. Later u s' × IsValid pg s' × Inserted rows u.tables s'.tables)
            (Done pg root (d ∷ deps) s) (Failed u) (Failed s) _
            (insert_dependencies-Ends id rows pg u r.valid r.distinct r.known
              (r.keeps_ids id w.has_id))
            (λ _ s' h. (
              Later-trans l h.0,
              h.1,
              graph_saved pg laws root (d ∷ deps) v s t u id rows s'.tables valid c w r h.2,
            ))
            (λ e s' f. Failed-trans e s' l f))

  write_graph-Ends :
      (deps : List Version) (s : Session)
      → IsValid pg s
      → Ends (Done pg root deps s) (Failed s) (write_graph pg root deps s)
  unfolding write_graph
  write_graph-Ends deps s valid =
      bind-node pg laws root.module_id [] root.sem_ver (Done pg root deps s)
        (λ version_ids. if is_nil deps then pure tt else (do
          dependent ← lift (first version_ids)
          rows ← write_dependencies pg dependent deps []
          insert_dependencies rows))
        s valid (after_root deps s valid)

-- In a valid database and for a named version, `SaveModuleDependencies` either succeeds or leaves
-- the tables as they were. On success the graph has the edges from before and one from the
-- version to each dependency, and no other; the version and its dependencies are nodes; nodes
-- keep their ids; and the database is valid again. The errors are those of the connection, of a
-- text that is no semantic version, and of an exhausted sequence: there is no panic, no row
-- affected twice, no failing foreign key and no unexpected number of rows.
pub save_module_dependencies-refines :
    (pg : Postgres) (laws : SemverLaws pg) (root : Version) (deps : List Version) (s : Session)
    → IsValid pg s
    → is_empty root.module_id ≡ false
    → is_empty root.sem_ver ≡ false
    → Ends
        (λ _ s'. IsValid pg s' × GraphSaved pg root deps s.tables s'.tables)
        (λ e s'. IsValid pg s' × (s'.tables ≡ s.tables) × Environmental e)
        (save_module_dependencies pg root deps s)
unfolding save_module_dependencies
save_module_dependencies-refines pg laws root deps s valid named versioned =
    rw (named, versioned)
      (Ends-weaken P P (RolledBack s)
        (λ e s'. IsValid pg s' × (s'.tables ≡ s.tables) × Environmental e) _
        (transaction-Ends P (write_graph pg root deps) s (λ faults.
          Ends-weaken (Done pg root deps (at faults))
            (λ a s'. Later s s' × ((faults' : List Bool) → P a (record s' { faults = faults' })))
            (Failed (at faults)) (Failed s) _
            (write_graph-Ends pg laws root deps (at faults) (IsValid-at s faults valid))
            (λ a s' h. (omega arith, λ faults'. (IsValid-at s' faults' h.1, h.2)))
            (λ e s' f. (omega arith, f.1))))
        (λ a s' h. h) (λ e s' f. (rolled_back s' f.0 f.1.0, f.0, f.1.1)))
  where
    P : Unit {0} → Session → Type 0
    P _ s' = IsValid pg s' × GraphSaved pg root deps s.tables s'.tables

    at : List Bool → Session
    at faults = record s { faults = faults }

    IsValid-at :
        (t : Session) (faults : List Bool)
        → IsValid pg t
        → IsValid pg (record t { faults = faults })
    IsValid-at t faults v = record {
      modules_ok = v.modules_ok;
      versions_ok = v.versions_ok;
      dependencies_ok = v.dependencies_ok;
    }

    rolled_back : (s' : Session) → s'.tables ≡ s.tables → Later s s' → IsValid pg s'
    rolled_back s' e l = IsValid-grow pg s s' e l valid
