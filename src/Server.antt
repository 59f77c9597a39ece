-- ===== src/Server.antt =====
-- The manager of the server of the Java parser (java/gazelle/private/servermanager/servermanager.go). `Port` is about
-- the number that the server writes and the wait for it, `Connections` about rows of calls.
--
-- What the outside answers is a parameter of each call: whether the parser is found and started, what its file has
-- at each look, and the connection of gRPC. The effects of a call are a list, the last one first. The mutex makes the
-- calls one row.
pub mod Port
pub mod Connections
use Prim.Native.Nat.{◌*◌, ◌/◌, ◌%◌, ◌^◌}
use rules_jvm.Prelude.{
  ℕ, zero, suc, ◌+◌, ◌-◌, Bool, true, false, ◌||◌, ltb, ℕ_discrete, Option, none, some, List, [],
  ◌∷◌, ◌++◌, Text, codes, if◌then◌else◌,
}

-- int64, the type of parsed numbers.
pub data ℤ : Type 0 where
  pos : ℕ → ℤ
  negsuc : ℕ → ℤ

abbrev pub minus : ℕ → ℤ
minus zero = pos 0
minus (suc n) = negsuc n

-- strconv.ParseUint with base 10 and 32 bits, from the number before.
unfoldable pub parse_uint : Text → ℕ → Option ℕ
parse_uint [] n = some n
parse_uint (c ∷ s) n =
    let m = n * 10 + (c - b'0') in
    let rest = parse_uint s m in
    if ltb c b'0' || ltb b'9' c then none else if ltb (2 ^ 32 - 1) m then none else rest

unfoldable pub signed : Bool → Text → Option ℤ
unfolding parse_uint
signed negative [] = none
signed negative (c ∷ s) = elim (parse_uint (c ∷ s) 0) [
  | none ↦ none
  | some n ↦
      if negative
      then (if ltb (2 ^ 31) n then none else some (minus n))
      else (if ltb (2 ^ 31 - 1) n then none else some (pos n))
]

-- strconv.ParseInt(s, 10, 32)
unfoldable pub parse_int : Text → Option ℤ
unfolding signed
parse_int [] = none
parse_int (c ∷ s) = elim (ℕ_discrete c b'-') [
  | yes _ ↦ signed true s
  | no _ ↦ elim (ℕ_discrete c b'+') [ yes _ ↦ signed false s | no _ ↦ signed false (c ∷ s) ]
]

-- The digits of %d, in front of those that are there already. A number of 32 bits has at most ten.
unfoldable pub digits : ℕ → ℕ → Text → Text
digits zero n out = out
digits (suc fuel) n out =
    if ltb n 10 then (b'0' + n) ∷ out else digits fuel (n / 10) ((b'0' + n % 10) ∷ out)

abbrev pub decimal : ℤ → Text
decimal (pos n) = digits 10 n []
decimal (negsuc n) = b'-' ∷ digits 10 (suc n) []

-- One look at the file: the milliseconds since the start, and what reading it returns.
pub data FileRead : Type 0 where
  absent : FileRead
  unreadable : FileRead
  contents : Text → FileRead

pub record Poll : Type 0 where
  pub elapsed : ℕ
  pub file : FileRead

pub data PortRead : Type 0 where
  port : ℤ → PortRead
  timed_out : PortRead
  read_error : PortRead
  bad_port : Text → PortRead

abbrev pub port_in : Text → PortRead
port_in t = elim (parse_int t) [ none ↦ bad_port t | some p ↦ port p ]

-- readPort, from the i-th look on. `none` is that the fuel runs out.
unfoldable pub read_port : (ℕ → Poll) → ℕ → ℕ → Option PortRead
unfolding parse_int
read_port polls zero i = none
read_port polls (suc fuel) i =
    let later = read_port polls fuel (suc i) in
    if ltb 10000 (polls i).elapsed then some timed_out else elim (polls i).file [
      | absent ↦ later
      | unreadable ↦ some read_error
      | contents t ↦ some (port_in t)
    ]

-- The looks are ten milliseconds apart, and the last one is the first that is later than ten seconds.
abbrev pub looks : ℕ
looks = 1002

pub data Effect (Conn : Type 0) : Type 0 where
  started : List Text → Effect Conn
  opened : Text → Conn → Effect Conn
  asked_to_shut_down : Conn → Effect Conn
  closed : Conn → Effect Conn

pub record ServerManager (Conn : Type 0) : Type 0 where
  pub workspace : Text
  pub java_log_level : Text
  pub tmpdir : Text
  pub conn : Option Conn
  pub effects : List (Effect Conn)

-- What grpc.DialContext does with WithBlock and a context without a deadline: it may never return.
pub data Dialed (Conn : Type 0) : Type 0 where
  blocked : Dialed Conn
  refused : Dialed Conn
  joined : Conn → Dialed Conn

pub record Surroundings (Conn : Type 0) : Type 0 where
  pub locate_javaparser : List Text → Option Text
  pub startup_flags : List Text → List Text
  pub starts : List Text → Bool
  pub polls : ℕ → Poll
  pub dial : Text → Dialed Conn

pub data Connected (Conn : Type 0) : Type 0 where
  connected : Conn → Connected Conn
  not_found : Connected Conn
  not_started : Connected Conn
  no_port : PortRead → Connected Conn
  not_dialed : Connected Conn

abbrev pub address : ℤ → Text
address p = codes "localhost:" ++ decimal p

module _ {Conn : Type 0} where
  -- New
  unfoldable pub new_server_manager : Text → Text → Text → ServerManager Conn
  new_server_manager workspace level tmpdir = record {
    workspace = workspace;
    java_log_level = level;
    tmpdir = tmpdir;
    conn = none;
    effects = [];
  }

  abbrev pub jvm_flags : ServerManager Conn → List Text
  jvm_flags m = (codes "-Dorg.slf4j.simpleLogger.defaultLogLevel=" ++ m.java_log_level) ∷ []

  abbrev pub command_args : Surroundings Conn → ServerManager Conn → Text → List Text
  command_args e m parser =
      parser ∷ e.startup_flags (jvm_flags m)
      ++ codes "--server-port-file-path"
        ∷ (m.tmpdir ++ codes "/port")
        ∷ codes "--workspace"
        ∷ m.workspace
        ∷ codes "--idle-timeout"
        ∷ codes "30"
        ∷ []

  -- Once the server runs. `none` is a call that does not return.
  unfoldable pub dial_port :
      Surroundings Conn
      → ServerManager Conn
      → PortRead
      → Option (ServerManager Conn × Connected Conn)
  unfolding digits
  dial_port e m (port p) = elim (e.dial (address p)) [
    | blocked ↦ none
    | refused ↦ some (m, not_dialed)
    | joined c ↦
        some (record m { conn = some c; effects = opened (address p) c ∷ m.effects }, connected c)
  ]
  dial_port e m timed_out = some (m, no_port timed_out)
  dial_port e m read_error = some (m, no_port read_error)
  dial_port e m (bad_port t) = some (m, no_port (bad_port t))

  unfoldable pub start :
      Surroundings Conn
      → ServerManager Conn
      → List Text
      → Option (ServerManager Conn × Connected Conn)
  unfolding read_port dial_port
  start e m args = elim (e.starts args) [
    | false ↦ some (m, not_started)
    | true ↦ elim (read_port e.polls looks 0) [
      | none ↦ none
      | some r ↦ dial_port e (record m { effects = started args ∷ m.effects }) r
    ]
  ]

  -- Connect
  unfoldable pub connect :
      Surroundings Conn → ServerManager Conn → Option (ServerManager Conn × Connected Conn)
  unfolding start
  connect e m = elim m.conn [
    | some c ↦ some (m, connected c)
    | none ↦ elim (e.locate_javaparser (jvm_flags m)) [
      | none ↦ some (m, not_found)
      | some parser ↦ start e m (command_args e m parser)
    ]
  ]

  -- Shutdown
  unfoldable pub shutdown : ServerManager Conn → ServerManager Conn
  shutdown m = elim m.conn [
    | none ↦ m
    | some c ↦ record m { conn = none; effects = closed c ∷ asked_to_shut_down c ∷ m.effects }
  ]
