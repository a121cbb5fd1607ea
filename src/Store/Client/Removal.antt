-- ===== src/Store/Client/Removal.antt =====
-- One delete of a key that is there.
use retcd.Prelude.{
  suc, ◌+◌, ◌<◌, ◌^◌, ◌≡◌, refl, true, [], ◌∷◌, none, some, arith, if◌then◌else◌, length,
}
use retcd.Bytes.{Bytes, str_eq}
use retcd.Redis.{Redis}
use retcd.Store.Blob.{KeyValue}
use retcd.Store.Event.{delete_op}
use retcd.Store.Script.{redis_key, write_script}
use retcd.Store.Mvcc.{Mvcc, IsExact}
use retcd.Store.Mvcc
use retcd.Store.Mvcc.Exact.{delete-IsExact}
use retcd.Store.Refine.{Refines}
use retcd.Store.Client.{ok, World, delete}
use retcd.Store.Client.Writes.{deletes, delete-run}
use retcd.Store.Client.Log.{Logged}

module _ (R : Redis) where
  pub record Deleted (w : World R) (m : Mvcc) (k : Bytes) (prev : KeyValue) (w' : World R)
      : Type 0 where
    pub logged : Logged R w m w'
    pub one : length logged.new ≡ 1
    pub gone : (j : Bytes) → logged.state.at j ≡ (if str_eq k j then none else m.at j)
    pub sid : Bytes
    pub state_is : logged.state ≡ Mvcc.delete k prev sid m
    pub db_is : w'.db ≡ (write_script R (redis_key k) delete_op [] 0 w.db).1

  pub delete-Deleted :
      (w : World R) (m : Mvcc) (k : Bytes) (prev : KeyValue) (r : Refines R w.db m) (x : IsExact m)
      (there : m.at k ≡ some prev)
      → m.revision + 2 < 2 ^ 63
      → w.fates ≡ []
      → w.sink ≡ true
      → ((delete R k w).0 ≡ ok (suc m.revision, some prev)) × Deleted w m k prev (delete R k w).1
  delete-Deleted w m k prev r x there room calm on =
      rw (delete-run R w m r x k prev there calm on) (
        refl,
        record {
          logged = record {
            new =
                Mvcc.delete_event k (suc m.revision) prev (deletes R w m r x k prev there).sid ∷ [];
            state = Mvcc.delete k prev (deletes R w m r x k prev there).sid m;
            emitted = refl;
            history = unfold Mvcc.delete in refl;
            numbered = (refl, tt);
            revision = unfold Mvcc.delete in omega arith;
            refines = (deletes R w m r x k prev there).refines;
            exact = delete-IsExact m x room k prev (deletes R w m r x k prev there).sid;
            calm = calm;
            on = on;
          };
          one = refl;
          gone = λ j. unfold Mvcc.delete in refl;
          sid = (deletes R w m r x k prev there).sid;
          state_is = refl;
          db_is = refl;
        },
      )
