-- ===== src/Server/Listener.antt =====
-- src/server.rs: `listen`, with the tasks that it spawns, as a step relation on the counter.
use sodp.Base.{ℕ, ◌+◌, ◌-◌, ◌<◌, ◌≤◌, ◌≡◌, Bool, true, false, Option, none, some, if◌then◌else◌}

-- `admitting` is the accept loop between its test of the limit and the `fetch_add`; `serving` counts
-- the tasks that have not yet done their `fetch_sub`. A task that panics does
-- none and stays counted. The counter does not reach 2^64.
pub record Listener : Type 0 where
  pub max_connections : Option ℕ
  pub connections : ℕ
  pub admitting : Bool
  pub serving : ℕ

abbrev pub HasRoom : Option ℕ → ℕ → Type 0
HasRoom none n = Unit
HasRoom (some limit) n = n < limit

pub data Step (l : Listener) : Listener → Type 0 where
  accept :
      l.admitting ≡ false
      → HasRoom l.max_connections l.connections
      → Step l (record l { admitting = true })
  reject : {limit : ℕ} → l.max_connections ≡ some limit → limit ≤ l.connections → Step l l
  spawn :
      l.admitting ≡ true
      → Step l
          (record l { admitting = false; connections = l.connections + 1; serving = l.serving + 1 })
  finish :
      0 < l.serving → Step l (record l { connections = l.connections - 1; serving = l.serving - 1 })

abbrev pub idle : Option ℕ → Listener
idle max_connections = record {
  max_connections = max_connections;
  connections = 0;
  admitting = false;
  serving = 0;
}

pub data Reach (max_connections : Option ℕ) : Listener → Type 0 where
  start : Reach max_connections (idle max_connections)
  later : {l k : Listener} → Reach max_connections l → Step l k → Reach max_connections k

abbrev pub Within : Option ℕ → ℕ → Type 0
Within none n = Unit
Within (some limit) n = n ≤ limit

pub record IsCounted (max_connections : Option ℕ) (l : Listener) : Type 0 where
  pub same_limit : l.max_connections ≡ max_connections
  pub honest : l.connections ≡ l.serving
  pub limited : Within max_connections (l.connections + (if l.admitting then 1 else 0))
