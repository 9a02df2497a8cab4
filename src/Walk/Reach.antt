-- ===== src/Walk/Reach.antt =====
-- What a walk is for: the events reachable from the heads over parent edges.
use contextmesh_rs.Common.{ℕ, List, Memᴰ}

pub data Reach (par : ℕ → List ℕ) (heads : List ℕ) : ℕ → Type 0 where
  from_head : {h : ℕ} → Memᴰ h heads → Reach par heads h
  to_parent : {c p : ℕ} → Reach par heads c → Memᴰ p (par c) → Reach par heads p

-- A set that holds the heads and is closed under parents holds all that is reachable.
pub Reach-closed :
    (par : ℕ → List ℕ) (heads : List ℕ) (P : ℕ → Type 0)
    → ((h : ℕ) → Memᴰ h heads → P h)
    → ((c p : ℕ) → P c → Memᴰ p (par c) → P p)
    → {j : ℕ} → Reach par heads j
    → P j
Reach-closed par heads P base step (from_head m) = base _ m
Reach-closed par heads P base step (to_parent {c} {p} r m) =
    step c p (Reach-closed par heads P base step r) m
