-- ===== src/Semaphore/Tests.antt =====
-- A semaphore of 1 that is waited for, torn down and waited for again.
use libmandrews.Prelude.{◌-◌, refl, true, false, arith}
use libmandrews.Semaphore.{Semaphore, word, create, wait, teardown}
use libmandrews.Semaphore.Permits.{Calls, made, grants, refuses, closes, Balance, Calls-Balance}

abbrev taken : Semaphore
taken = record { count = 0; running = true }

abbrev wrapped : Semaphore
wrapped = record { count = word - 1; running = false }

taken-Calls : Calls 1 0 1 taken
unfolding create wait
taken-Calls = grants (made refl refl) refl

wrapped-Calls : Calls 1 0 1 wrapped
unfolding wait teardown
wrapped-Calls = refuses (closes taken-Calls) refl

Calls-Balance_example : Balance 1 0 1 wrapped
Calls-Balance_example = Calls-Balance (omega arith) wrapped-Calls
