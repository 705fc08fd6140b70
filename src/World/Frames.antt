-- ===== src/World/Frames.antt =====
-- Actions that leave every table as it is, and the rules for statements.
use hi_wave_tel.Prelude.{ℕ, ◌≡◌, refl, ◌∙◌, Option, none, some, Text}
use hi_wave_tel.Runtime.Exn.{Exn, operational}
use hi_wave_tel.Runtime.Exec.{Result, err}
use hi_wave_tel.Runtime.Respects.{IsPreorder, Respects}
use hi_wave_tel.World.{Env, World, statement, query, sleep, sqlite_nap, or_raise}
use hi_wave_tel.World.Calm.{counted_call}

-- All that is stored: the tables of the database and of the dead-letter queue.
pub record SameTables (w w' : World) : Type 0 where
  pub inbound : w'.inbound ≡ w.inbound
  pub outbound : w'.outbound ≡ w.outbound
  pub jobs : w'.jobs ≡ w.jobs
  pub webhooks : w'.webhooks ≡ w.webhooks
  pub devices : w'.devices ≡ w.devices
  pub dlq : w'.dlq ≡ w.dlq
  pub next_pk : w'.next_pk ≡ w.next_pk

pub SameTables-refl : (w : World) → SameTables w w
SameTables-refl w = record {
  inbound = refl;
  outbound = refl;
  jobs = refl;
  webhooks = refl;
  devices = refl;
  dlq = refl;
  next_pk = refl;
}

pub SameTables-IsPreorder : IsPreorder SameTables
SameTables-IsPreorder = record {
  refl = SameTables-refl;
  trans = λ u v w a b. record {
    inbound = b.inbound ∙ a.inbound;
    outbound = b.outbound ∙ a.outbound;
    jobs = b.jobs ∙ a.jobs;
    webhooks = b.webhooks ∙ a.webhooks;
    devices = b.devices ∙ a.devices;
    dlq = b.dlq ∙ a.dlq;
    next_pk = b.next_pk ∙ a.next_pk;
  };
}

pub counted-SameTables : (w : World) → SameTables w (counted_call w)
counted-SameTables w = record {
  inbound = refl;
  outbound = refl;
  jobs = refl;
  webhooks = refl;
  devices = refl;
  dlq = refl;
  next_pk = refl;
}

pub sleep-SameTables : (d : ℕ) (w : World) → SameTables w (sleep d w)
unfolding sleep
sleep-SameTables d w = record {
  inbound = refl;
  outbound = refl;
  jobs = refl;
  webhooks = refl;
  devices = refl;
  dlq = refl;
  next_pk = refl;
}

pub nap-SameTables : (env : Env) (k : ℕ) (w : World) → SameTables w (sqlite_nap env k w)
unfolding sqlite_nap
nap-SameTables env k w = sleep-SameTables _ w

-- A statement keeps what its body and the counting of it keep.
pub statement-Respects :
    {A : Type 0} (R : World → World → Type 0) (env : Env) (run : World → Result A × World)
    → ((w : World) → R w (counted_call w))
    → ((w : World) → R w (run (counted_call w)).1)
    → Respects R (statement env run)
unfolding statement
statement-Respects {A} R env run count body = record {
  at = λ w. by_error w (env.db_error w.db_calls);
}
  where
    by_error :
        (w : World) (o : Option Text)
        → R w
            (elim o as (λ _. Result A × World) [
              | none ↦ run (counted_call w)
              | some m ↦ (err (operational m), counted_call w)
            ]).1
    by_error w none = body w
    by_error w (some m) = count w

pub query-SameTables : {A : Type 0} (env : Env) (f : World → A) → Respects SameTables (query env f)
unfolding query
query-SameTables env f =
    statement-Respects SameTables env _ counted-SameTables (λ w. counted-SameTables w)

pub or_raise-world : {A : Type 0} (x : Exn) (o : Option A) (w : World) → (or_raise x o w).1 ≡ w
or_raise-world x none w = refl
or_raise-world x (some a) w = refl
