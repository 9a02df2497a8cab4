-- ===== src/Store/Transaction.antt =====
-- What `Store::write` makes of an operation (`finish_transaction`, src/store.rs).
use contextmesh_rs.Common.{◌≡◌, refl, ok, err, arith}
use contextmesh_rs.Store.State.{
  Db, StoreResult, Op, Commit, acknowledged, lost_after, lost_before, finish_transaction, write,
  indeterminate_commit,
}

module _ {A : Type 0} where
  finish-keeps :
      (P : Db → Type 0) (commit : Commit) (db : Db) (r : StoreResult (A × Db))
      → P db
      → ((a : A) (db' : Db) → r ≡ ok (a, db') → P db')
      → P (finish_transaction commit db r).1
  unfolding finish_transaction
  finish-keeps P acknowledged db (err x) p f = p
  finish-keeps P lost_after db (err x) p f = p
  finish-keeps P lost_before db (err x) p f = p
  finish-keeps P acknowledged db (ok (a, db')) p f = f a db' refl
  finish-keeps P lost_after db (ok (a, db')) p f = f a db' refl
  finish-keeps P lost_before db (ok (a, db')) p f = p

  -- What holds before a write and behind its operation, where that succeeds, holds after the write.
  pub write-keeps :
      (P : Db → Type 0) (commit : Commit) (operation : Op A) (db : Db)
      → P db
      → ((a : A) (db' : Db) → operation db ≡ ok (a, db') → P db')
      → P (write commit operation db).1
  unfolding write
  write-keeps P commit operation db p f = finish-keeps P commit db (operation db) p f

  finish_ok :
      (commit : Commit) (db : Db) (r : StoreResult (A × Db)) (a : A)
      → (finish_transaction commit db r).0 ≡ ok a
      → r ≡ ok (a, (finish_transaction commit db r).1)
  unfolding finish_transaction
  finish_ok acknowledged db (err y) a h = cc
  finish_ok lost_after db (err y) a h = cc
  finish_ok lost_before db (err y) a h = cc
  finish_ok acknowledged db (ok (b, db')) a h = ground (arith, h)
  finish_ok lost_after db (ok (b, db')) a h = cc
  finish_ok lost_before db (ok (b, db')) a h = cc

  -- A write that succeeds leaves the state that its operation made.
  pub write_ok :
      (commit : Commit) (operation : Op A) (db : Db) (a : A)
      → (write commit operation db).0 ≡ ok a
      → operation db ≡ ok (a, (write commit operation db).1)
  unfolding write
  write_ok commit operation db a h = finish_ok commit db (operation db) a h

  -- An operation that succeeds, by the answer of the commit.
  pub write_acknowledged :
      (operation : Op A) (db db' : Db) (a : A)
      → operation db ≡ ok (a, db')
      → write acknowledged operation db ≡ (ok a, db')
  unfolding write finish_transaction
  write_acknowledged operation db db' a h = rw h refl

  pub write_lost_after :
      (operation : Op A) (db db' : Db) (a : A)
      → operation db ≡ ok (a, db')
      → write lost_after operation db ≡ (err indeterminate_commit, db')
  unfolding write finish_transaction
  write_lost_after operation db db' a h = rw h refl
