-- ===== src/Registry.antt =====
-- internal/coordinator/registry/registry.go: the connected workers by their id.
-- A worker's send channel is known by a number, its identity. Times are milliseconds; the clock is
-- an argument. The map's order is the one in which the program ranges over it.
pub mod Ownership
pub mod Admission
use loadify.Prelude.{
  ℕ, ◌+◌, ◌-◌, Bool, true, false, not, ◌&&◌, String, List, [], ◌∷◌, Option, none, some, ltb, leb,
  eqb, if◌then◌else◌, string_eq, ◌==◌,
}
use loadify.Platform.{Platform, Float, float}
use loadify.Wire.{Protocol, unspecified, protocol_eq, RegisterRequest}
use loadify.Dict.{lookup, insert, delete, values}

module _ ⦃p : Platform⦄ where
  -- A heartbeat's telemetry (`Stats`).
  pub record Stats : Type 0 where
    pub active_vus : ℕ
    pub cpu_pct : Float
    pub mem_bytes : ℕ
    pub mem_total_bytes : ℕ
    pub net_rx_bps : ℕ
    pub net_tx_bps : ℕ
    pub net_rx_pps : ℕ
    pub net_tx_pps : ℕ

  pub record Worker : Type 0 where
    pub id : String
    pub region : String
    pub cpu_cores : ℕ
    pub supported : List Protocol
    pub send : ℕ
    pub stats : Stats
    pub last_seen : ℕ
    pub connected : ℕ
    pub healthy_ttl : ℕ

  pub record Registry : Type 0 where
    pub workers : List (String × Worker)
    pub ttl : ℕ

  -- Worker.Healthy; a `now` before `last_seen` is a negative duration and healthy.
  unfoldable pub is_healthy : Worker → ℕ → Bool
  is_healthy w now = leb (now - w.last_seen) w.healthy_ttl

  -- cpuUtilization
  unfoldable pub cpu_utilization : Worker → Float
  cpu_utilization w =
      if ltb 1 w.cpu_cores then p.div_float w.stats.cpu_pct (float w.cpu_cores) else w.stats.cpu_pct

  -- memUtilization
  unfoldable pub mem_utilization : Worker → Float
  mem_utilization w =
      if leb w.stats.mem_total_bytes 0
      then float 0
      else p.div_float (p.mul_float (float 100) (float w.stats.mem_bytes))
          (float w.stats.mem_total_bytes)

  -- New; the default is six seconds.
  unfoldable pub new : ℕ → Registry
  new ttl = record { workers = []; ttl = if leb ttl 0 then 6000 else ttl }

  unfoldable pub no_stats : Stats
  no_stats = record {
    active_vus = 0;
    cpu_pct = float 0;
    mem_bytes = 0;
    mem_total_bytes = 0;
    net_rx_bps = 0;
    net_tx_bps = 0;
    net_rx_pps = 0;
    net_tx_pps = 0;
  }

  -- Add
  unfoldable pub add : Registry → RegisterRequest → ℕ → ℕ → Registry
  unfolding no_stats
  add r reg send now = record r {
    workers =
        insert reg.worker_id
          (record {
            id = reg.worker_id;
            region = reg.region;
            cpu_cores = reg.cpu_cores;
            supported = reg.supported;
            send = send;
            stats = no_stats;
            last_seen = now;
            connected = now;
            healthy_ttl = r.ttl;
          })
          r.workers;
  }

  -- Remove: only the stream that owns the current handle removes it.
  unfoldable pub remove : Registry → String → ℕ → Registry × Bool
  remove r id send = elim (lookup id r.workers) [
    | none ↦ (r, false)
    | some w ↦
        if eqb w.send send then (record r { workers = delete id r.workers }, true) else (r, false)
  ]

  -- Touch
  unfoldable pub touch : Registry → String → Stats → ℕ → Registry
  touch r id s now = elim (lookup id r.workers) [
    | none ↦ r
    | some w ↦ record r { workers = insert id (record w { last_seen = now; stats = s }) r.workers }
  ]

  -- Get
  unfoldable pub get : Registry → String → Option Worker
  get r id = lookup id r.workers

  -- Utilization
  unfoldable pub utilization : Registry → String → Option Float
  unfolding cpu_utilization
  utilization r id = elim (lookup id r.workers) [ none ↦ none | some w ↦ some (cpu_utilization w) ]

  -- supports
  unfoldable pub supports_loop : List Protocol → Protocol → Bool
  supports_loop [] proto = false
  supports_loop (q ∷ supported) proto =
      let rest = supports_loop supported proto in if q == proto then true else rest

  unfoldable pub supports : Worker → Protocol → Bool
  unfolding supports_loop
  supports w proto = supports_loop w.supported proto

  -- The loop of Healthy.
  unfoldable pub healthy_loop : List Worker → Protocol → ℕ → List Worker
  healthy_loop [] proto now = []
  healthy_loop (w ∷ ws) proto now =
      let rest = healthy_loop ws proto now in
      if not (is_healthy w now)
      then rest
      else if not (proto == unspecified) && not (supports w proto)
      then rest
      else w ∷ rest

  unfoldable pub healthy : Registry → Protocol → ℕ → List Worker
  unfolding healthy_loop
  healthy r proto now = healthy_loop (values r.workers) proto now

  -- The loop of Available.
  unfoldable pub available_loop : List Worker → Protocol → Float → Float → ℕ → List Worker
  available_loop [] proto cpu_max mem_max now = []
  available_loop (w ∷ ws) proto cpu_max mem_max now =
      let rest = available_loop ws proto cpu_max mem_max now in
      if not (is_healthy w now)
      then rest
      else if not (proto == unspecified) && not (supports w proto)
      then rest
      else if p.lt_float (float 0) cpu_max && p.le_float cpu_max (cpu_utilization w)
      then rest
      else if p.lt_float (float 0) mem_max && p.le_float mem_max (mem_utilization w)
      then rest
      else w ∷ rest

  unfoldable pub available : Registry → Protocol → Float → Float → ℕ → List Worker
  unfolding available_loop
  available r proto cpu_max mem_max now =
      available_loop (values r.workers) proto cpu_max mem_max now

  -- What List reports of a worker: its handle with its health.
  pub record WorkerInfo : Type 0 where
    pub worker : Worker
    pub status : String

  unfoldable pub list_loop : List Worker → ℕ → List WorkerInfo
  list_loop [] now = []
  list_loop (w ∷ ws) now =
      record { worker = w; status = if is_healthy w now then "healthy" else "unhealthy" }
      ∷ list_loop ws now

  unfoldable pub list : Registry → ℕ → List WorkerInfo
  unfolding list_loop
  list r now = list_loop (values r.workers) now
