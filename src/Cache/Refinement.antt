-- ===== src/Cache/Refinement.antt =====
-- The cache against what it promises: a map in which an entry is visible until it expires, and in
-- which cleaning up is no event.
use app_modbus_go.Prelude.{
  ℕ, ◌≤◌, ◌≡◌, ◌∙◌, refl, Option, none, some, List, [], ◌∷◌, arith, if◌then◌else◌,
}
use native.Mathlib.Nat.{le_trans}
use app_modbus_go.Prelude.Int.{ℤ}
use app_modbus_go.Prelude.Eq.{ℕ_eq, ◌==◌}
use app_modbus_go.Prelude.Dict.{
  Unique, lookup, lookup-insert, lookup-erase, insert-Unique, erase-Unique,
}
use app_modbus_go.Value.{Floats}
use app_modbus_go.Cache.{CachedData, Cache, stamp, fresh, get, set, delete, clear, cleanup}
use app_modbus_go.Cache.Expiry.{lookup-cleanup_loop}
use app_modbus_go.Cache.Keys.{cleanup_loop-Unique}

-- The calls that change a cache.
pub data Call (fl : Floats) : Type 0 where
  set_call : ℕ → CachedData fl → Call fl
  delete_call : ℕ → Call fl
  clear_call : Call fl
  cleanup_call : Call fl

-- What a client can know of a cache: what was last stored at each address.
abbrev pub View : Floats → Type 0
View fl = ℕ → Option (CachedData fl)

module _ {fl : Floats} where
  abbrev pub call : ℕ → Call fl → Cache fl → Cache fl
  call now (set_call a d) c = set now a d c
  call now (delete_call a) c = delete a c
  call now clear_call c = clear c
  call now cleanup_call c = (cleanup now c).0

  unfoldable pub run : List (ℕ × Call fl) → Cache fl → Cache fl
  run [] c = c
  run ((now, op) ∷ ops) c = run ops (call now op c)

  abbrev pub note : ℤ → ℕ → Call fl → View fl → View fl
  note ttl now (set_call a d) v = λ b. if a == b then some (stamp now ttl d) else v b
  note ttl now (delete_call a) v = λ b. if a == b then none else v b
  note ttl now clear_call v = λ b. none
  note ttl now cleanup_call v = v

  unfoldable pub history : ℤ → List (ℕ × Call fl) → View fl → View fl
  history ttl [] v = v
  history ttl ((now, op) ∷ ops) v = history ttl ops (note ttl now op v)

  -- The calls come in the order of their times, from `from` on and not past `to`.
  abbrev pub InOrder : ℕ → List (ℕ × Call fl) → ℕ → Type 0
  InOrder from [] to = from ≤ to
  InOrder from ((now, op) ∷ ops) to = (from ≤ now) × InOrder now ops to

  -- From `from` on the cache and the view answer alike.
  record Agrees (from : ℕ) (c : Cache fl) (v : View fl) : Type 0 where
    unique : Unique c.entries
    views : (t a : ℕ) → from ≤ t → get t a c ≡ fresh t (v a)

  call-Agrees :
      (from now : ℕ) (op : Call fl) (c : Cache fl) (v : View fl)
      → from ≤ now
      → Agrees from c v
      → Agrees now (call now op c) (note c.default_ttl now op v)
  unfolding get set delete clear cleanup
  call-Agrees from now (set_call a d) c v h g = record {
    unique = insert-Unique a (stamp now c.default_ttl d) c.entries g.unique;
    views = λ t b k. rw lookup-insert (ground (arith, g.views t b));
  }
  call-Agrees from now (delete_call a) c v h g = record {
    unique = erase-Unique a c.entries g.unique;
    views = λ t b k. rw lookup-erase (ground (arith, g.views t b));
  }
  call-Agrees from now clear_call c v h g = record {
    unique = tt;
    views = λ t b k. unfold lookup in refl;
  }
  call-Agrees from now cleanup_call c v h g = record {
    unique = cleanup_loop-Unique now c.entries g.unique;
    views = λ t b k. lookup-cleanup_loop now t b c.entries k g.unique ∙ g.views t b (le_trans h k);
  }

  default_ttl-call :
      (now : ℕ) (op : Call fl) (c : Cache fl) → (call now op c).default_ttl ≡ c.default_ttl
  unfolding set delete clear cleanup
  default_ttl-call now (set_call a d) c = refl
  default_ttl-call now _ c = refl

  run-Agrees :
      (ops : List (ℕ × Call fl)) (from to : ℕ) (c : Cache fl) (v : View fl)
      → InOrder from ops to
      → Agrees from c v
      → (a : ℕ) → get to a (run ops c) ≡ fresh to (history c.default_ttl ops v a)
  unfolding run history
  run-Agrees [] from to c v h g a = g.views to a h
  run-Agrees ((now, op) ∷ ops) from to c v h g a =
      rw
        (
          run-Agrees ops now to (call now op c) (note c.default_ttl now op v) h.1
              (call-Agrees from now op c v h.0 g) a,
          default_ttl-call,
        )
        refl

  -- From a cache whose map has no address twice, whatever calls are made, in the order of their
  -- times, and however often the cleanup runs between them, `Get` at a later time returns what was
  -- last stored at the address, or stood there at the start, and has not been deleted or cleared
  -- since, if its TTL has not passed, and nothing else.
  pub get-run :
      (ops : List (ℕ × Call fl)) (from to a : ℕ) (c : Cache fl)
      → Unique c.entries
      → InOrder from ops to
      → get to a (run ops c) ≡ fresh to (history c.default_ttl ops (λ b. lookup b c.entries) a)
  unfolding get
  get-run ops from to a c u h =
      run-Agrees ops from to c (λ b. lookup b c.entries) h
        (record { unique = u; views = λ t b k. refl }) a
