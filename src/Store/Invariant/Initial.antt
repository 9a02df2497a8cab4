-- ===== src/Store/Invariant/Initial.antt =====
-- An empty database is consistent.
use contextmesh_rs.Common.Table.{lookup}
use contextmesh_rs.Event.Body.{Libraries}
use contextmesh_rs.Store.State.{empty_db}
use contextmesh_rs.Store.Invariant.{IsConsistent}

module _ (lib : Libraries) where
  pub IsConsistent-empty : IsConsistent lib empty_db
  unfolding lookup
  IsConsistent-empty = record {
    sound = record {
      rows = λ id r h. cc;
      parents = λ id e q s m. cc (s.at);
      heads = λ c n h e. cc;
      remote_heads = λ p c n h e. cc;
      contexts = λ c r h. cc;
    };
    live = record { active = λ id e s. cc (s.at) };
  }
