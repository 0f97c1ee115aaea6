-- ===== src/BrowserPool/Examples.antt =====
-- A full pool with an idle session of another administrator, which is evicted.
use auto_x.Prelude.{◌≡◌, refl, true, false, some, [], ◌∷◌, arith}
use auto_x.BrowserPool.{Pool, Round, given, acquire, acquire_round, evict, oldest, pop, add_lease}
use auto_x.BrowserPool.Ends.{IsResult, acquire_ends}

abbrev pool : Pool
pool = record {
  leases =
      record { number = 0; admin_id = 1; cookie_version = 2; busy = true; last_used = 10 }
      ∷ record { number = 1; admin_id = 4; cookie_version = 1; busy = false; last_used = 20 }
      ∷ [];
  is_closed = false;
  next_number = 2;
}

evicts_idle :
    acquire 3 2 30 7 5 pool
    ≡ some (
        given
          (record { number = 2; admin_id = 7; cookie_version = 5; busy = true; last_used = 30 })
          (record {
            leases =
                record { number = 0; admin_id = 1; cookie_version = 2; busy = true; last_used = 10 }
                ∷ record {
                  number = 2;
                  admin_id = 7;
                  cookie_version = 5;
                  busy = true;
                  last_used = 30;
                }
                ∷ [];
            is_closed = false;
            next_number = 3;
          }))
unfolding acquire acquire_round evict oldest pop add_lease
evicts_idle = refl

acquire_ends_example : (r : Round) × (acquire 3 2 30 7 5 pool ≡ some r) × IsResult 2 r
acquire_ends_example = acquire_ends 3 2 30 7 5 pool (omega arith) (omega arith)
