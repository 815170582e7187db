-- ===== src/Management/Info.antt =====
-- redisInfos.ts, and GET /api/info of index.ts: what the information page is given.
use testbench.Common.{Bool, Option, none, some, List, String, if◌then◌else◌}
use testbench.Management.Pages.{Query}
use testbench.Management.Queues.{Device, get_adb_device_infos}
use testbench.Management.Listing.{Queue, QueueInfos, get_queue_infos}

-- What redis-info parses of redis' report: texts.
pub record RedisInfo : Type 0 where
  pub redis_version : String
  pub redis_mode : String
  pub tcp_port : String
  pub os : String
  pub uptime_in_seconds : String
  pub total_system_memory : String
  pub maxmemory : String
  pub used_memory : String
  pub mem_fragmentation_ratio : String
  pub used_memory_peak : String
  pub connected_clients : String
  pub blocked_clients : String

pub record Memory (N : Type 0) : Type 0 where
  pub total : N
  pub used : N
  pub fragmentation_ratio : N
  pub peak : N

pub record Clients (N : Type 0) : Type 0 where
  pub connected : N
  pub blocked : N

-- `RedisInfos`, over the numbers of JavaScript.
pub record RedisInfos (N : Type 0) : Type 0 where
  pub version : String
  pub mode : String
  pub port : N
  pub os : String
  pub uptime : N
  pub memory : Memory N
  pub clients : Clients N

-- `number` is the operator `+`; `is_number` tells that a number is neither zero nor NaN.
unfoldable pub get_redis_infos : {N : Type 0} → (String → N) → (N → Bool) → RedisInfo → RedisInfos N
get_redis_infos number is_number r = record {
  version = r.redis_version;
  mode = r.redis_mode;
  port = number r.tcp_port;
  os = r.os;
  uptime = number r.uptime_in_seconds;
  memory = record {
    total =
        if is_number (number r.total_system_memory)
        then number r.total_system_memory
        else number r.maxmemory;
    used = number r.used_memory;
    fragmentation_ratio = number r.mem_fragmentation_ratio;
    peak = number r.used_memory_peak;
  };
  clients = record { connected = number r.connected_clients; blocked = number r.blocked_clients };
}

-- What the handler asks: redis for its report and its workers, the three queues, and adb. Where redis
-- fails there is no report.
pub record Sources : Type 0 where
  pub redis : Option RedisInfo
  pub ui_tests_jobs_queue : Queue
  pub analyzer_jobs_queue : Queue
  pub status_jobs_queue : Queue
  pub workers : List String
  pub headless_emulator_available : Bool
  pub adb : Option (List Device)

pub record Info (N : Type 0) : Type 0 where
  pub redis_infos : RedisInfos N
  pub ui_tests_jobs_queue_info : QueueInfos
  pub analyzer_jobs_queue_info : QueueInfos
  pub status_jobs_queue_info : QueueInfos
  pub workers : List String
  pub devices : List Device

-- GET /api/info; the handler has no `try`: where redis fails (`none`) Express 5 answers 500, with a page
-- that is no JSON.
unfoldable pub info : {N : Type 0} → (String → N) → (N → Bool) → Sources → Query → Option (Info N)
info number is_number s query = elim s.redis [
  | none ↦ none
  | some r ↦ some (record {
    redis_infos = get_redis_infos number is_number r;
    ui_tests_jobs_queue_info = get_queue_infos s.ui_tests_jobs_queue query;
    analyzer_jobs_queue_info = get_queue_infos s.analyzer_jobs_queue query;
    status_jobs_queue_info = get_queue_infos s.status_jobs_queue query;
    workers = s.workers;
    devices = get_adb_device_infos s.headless_emulator_available s.adb;
  })
]
