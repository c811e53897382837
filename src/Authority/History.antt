-- ===== src/Authority/History.antt =====
-- The tests of `require_current` (core/authority.py).
use edge_evidence_showcase.Prelude.{
  ℕ, ◌≡◌, refl, true, ◌↔◌, List, [], ◌∷◌, Text, text, text_eq, text_eq→eq, arith,
}
use edge_evidence_showcase.Database.Statements.{migrations, migration_eq, history_eq, is_current}

migration_eq→eq : (m n : ℕ × Text) → migration_eq m n ≡ true → m ≡ n
unfolding migration_eq
migration_eq→eq (v, s) (w, t) h = ground (arith, text_eq→eq s t)

pub history_eq→eq : (ms ns : List (ℕ × Text)) → history_eq ms ns ≡ true → ms ≡ ns
unfolding history_eq
history_eq→eq [] [] h = refl
history_eq→eq [] (n ∷ ns) h = cc
history_eq→eq (m ∷ ms) [] h = cc
history_eq→eq (m ∷ ms) (n ∷ ns) h = ground (arith, migration_eq→eq m n, history_eq→eq ms ns)

canonical : is_current migrations ≡ true
unfolding is_current text_eq text
canonical = refl

-- The tests of require_current pass a recorded history if and only if it is the canonical history of
-- migrations 1 to 10.
pub is_current_iff :
    (recorded : List (ℕ × Text)) → (is_current recorded ≡ true) ↔ (recorded ≡ migrations)
unfolding is_current
is_current_iff recorded =
    (λ h. history_eq→eq recorded migrations (ground arith), λ e. rw e canonical)
