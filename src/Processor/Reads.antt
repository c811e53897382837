-- ===== src/Processor/Reads.antt =====
-- What a call that returns has read (components/processor-worker/apps/edge_agent), for a property
-- that a used fault keeps.
use edge_evidence_showcase.Prelude.{ℕ, ◌≡◌, refl, Bool, true, false, Option, none, some, Text}
use edge_evidence_showcase.Exec.{Result, ok, err, ◌>>=◌}
use edge_evidence_showcase.Exec.Triple.{Post, Triple, Triple-catch, Triple-weaken}
use edge_evidence_showcase.Processor.Runtime.{
  Error, failure, lock_busy, processing, sqlite, os_error, overflow, collision, killed,
}
use edge_evidence_showcase.Processor.Ledger.{Ledger}
use edge_evidence_showcase.Processor.Machine.{
  Fault, fine, refused, crash, Item, regular, folder, link, special, Machine, Call, next_fault,
  spent, current, with_sqlite, with_system, query, attempt, ensure, item_at, look, read_item,
  read_bytes, coded, on_os_error,
}
use edge_evidence_showcase.Processor.Stable.{Spends}

module _ (P : Machine → Type 0) (sp : Spends P) where
  queried :
      {A : Type 0} (f : Ledger → A) (x : Fault) (m : Machine)
      → P m
      → Post
          (λ a m. P m × (a ≡ f (current m.working m.committed)))
          (λ _. P)
          (with_sqlite (λ m. (ok (f (current m.working m.committed)), m)) x m)
  unfolding with_sqlite
  queried f fine m p = (p, refl)
  queried f (refused e) m p = p
  queried f (crash n) m p = p

  pub query-Reads :
      {A : Type 0} (f : Ledger → A)
      → Triple P (query f) (λ a m. P m × (a ≡ f (current m.working m.committed))) (λ _. P)
  unfolding query
  query-Reads f = record { at = λ m p. queried f (next_fault m.faults) (spent m) (sp m p) }

  pub look-Reads :
      (path : Text) → Triple P (look path) (λ i m. P m × (i ≡ item_at path m.files)) (λ _. P)
  unfolding look
  look-Reads path = record { at = λ m p. (p, refl) }

  pub ensure-Reads :
      (b : Bool) (x : Error) → Triple P (ensure b x) (λ _ m. P m × (b ≡ true)) (λ _. P)
  unfolding ensure
  ensure-Reads true x = record { at = λ m p. (p, refl) }
  ensure-Reads false x = record { at = λ m p. p }

  pub attempt-Reads :
      {A : Type 0} (r : Result Error A) → Triple P (attempt r) (λ a m. P m × (r ≡ ok a)) (λ _. P)
  unfolding attempt
  attempt-Reads (ok a) = record { at = λ m p. (p, refl) }
  attempt-Reads (err x) = record { at = λ m p. p }

  item_read :
      (path : Text) (o : Option Item) (m : Machine)
      → item_at path m.files ≡ o
      → P m
      → Post (λ b m. P m × (item_at path m.files ≡ some (regular b))) (λ _. P) (read_item o, m)
  unfolding read_item
  item_read path none m e p = p
  item_read path (some (regular b)) m e p = (p, e)
  item_read path (some (folder d)) m e p = p
  item_read path (some link) m e p = p
  item_read path (some special) m e p = p

  bytes_read :
      (path : Text) (x : Fault) (m : Machine)
      → P m
      → Post
          (λ b m. P m × (item_at path m.files ≡ some (regular b)))
          (λ _. P)
          (with_system (λ m. (read_item (item_at path m.files), m)) x m)
  unfolding with_system
  bytes_read path fine m p = item_read path (item_at path m.files) m refl p
  bytes_read path (refused e) m p = p
  bytes_read path (crash n) m p = p

  pub read_bytes-Reads :
      (path : Text)
      → Triple P (read_bytes path) (λ b m. P m × (item_at path m.files ≡ some (regular b))) (λ _. P)
  unfolding read_bytes
  read_bytes-Reads path = record {
    at = λ m p. bytes_read path (next_fault m.faults) (spent m) (sp m p);
  }

module _ (P : Machine → Type 0) {A : Type 0} {Q : A → Machine → Type 0} where
  failed : (code : ℕ) (x : Error) → Triple P (coded {A = A} code x) Q (λ _. P)
  unfolding coded
  failed code os_error = record { at = λ m p. p }
  failed code (failure c) = record { at = λ m p. p }
  failed code lock_busy = record { at = λ m p. p }
  failed code (processing c) = record { at = λ m p. p }
  failed code (sqlite e) = record { at = λ m p. p }
  failed code overflow = record { at = λ m p. p }
  failed code collision = record { at = λ m p. p }
  failed code killed = record { at = λ m p. p }

  pub on_os_error-Reads :
      (code : ℕ) (body : Call A)
      → Triple P body Q (λ _. P)
      → Triple P (on_os_error code body) Q (λ _. P)
  on_os_error-Reads code body k = Triple-catch body (coded code) (λ _. P) k (failed code)

-- The same call with less known where it raises.
pub loosen :
    {A : Type 0} {P P' : Machine → Type 0} {Q : A → Machine → Type 0} {m : Call A}
    → ((s : Machine) → P' s → P s)
    → Triple P' m Q (λ _. P')
    → Triple P' m Q (λ _. P)
loosen {m} f k = Triple-weaken m _ _ _ k (λ s p. p) (λ a s q. q) (λ x s p. f s p)

-- A pure call and what follows, with the equation of its result.
pub attempt_then :
    {A B : Type 0} {P : Machine → Type 0} {Q : B → Machine → Type 0} {E : Error → Machine → Type 0}
    (r : Result Error A) (f : A → Call B)
    → ((a : A) → r ≡ ok a → Triple P (f a) Q E)
    → ((x : Error) (m : Machine) → P m → E x m)
    → Triple P (attempt r >>= f) Q E
unfolding attempt
attempt_then (ok a) f k e = record { at = (k a refl).at }
attempt_then (err x) f k e = record { at = e x }
