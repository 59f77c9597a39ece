-- ===== src/Examples/Server.antt =====
-- Runs and instances for the manager of the parser's server.
use rules_jvm.Prelude.{ℕ, zero, suc, ◌+◌, ◌≡◌, refl, true, none, some, [], codes, arith, ℕ_discrete}
use Prim.Native.Nat.{◌*◌}
use rules_jvm.Server.{
  joined, pos, parse_int, parse_uint, signed, digits, decimal, Poll, absent, contents, port,
  PortRead, read_port, looks, ServerManager, Surroundings, Connected, connected, connect, shutdown,
  new_server_manager, start, dial_port,
}
use rules_jvm.Server.Port.{InInt32, IsPort, Sleeps, read_port-Ends}
use rules_jvm.Server.Connections.{
  Dials, connect-decimal, IsBalanced, connects, shuts_down, done, after, Steps-IsBalanced,
  connect-again,
}

-- The file has the port from the third look on.
abbrev slow : ℕ → Poll
slow zero = record { elapsed = 0; file = absent }
slow (suc zero) = record { elapsed = 10; file = absent }
slow (suc (suc i)) = record { elapsed = 20 + 10 * i; file = contents (codes "40123") }

slow-Sleeps : Sleeps slow
slow-Sleeps zero = omega arith
slow-Sleeps (suc zero) = omega arith
slow-Sleeps (suc (suc i)) = omega arith

read_port_run : read_port slow looks 0 ≡ some (port (pos 40123))
unfolding read_port parse_int signed parse_uint ℕ_discrete
read_port_run = refl

parse_int_refused : parse_int (codes "2147483648") ≡ none
unfolding parse_int signed parse_uint ℕ_discrete
parse_int_refused = refl

read_port-Ends_example : (r : PortRead) × (read_port slow looks 0 ≡ some r) × IsPort r
read_port-Ends_example = read_port-Ends slow slow-Sleeps

in_range : InInt32 (pos 40123)
unfolding InInt32
in_range = omega arith

abbrev answers : Surroundings ℕ
answers = record {
  locate_javaparser = λ flags. some (codes "javaparser");
  startup_flags = λ flags. [];
  starts = λ args. true;
  polls = slow;
  dial = λ address. joined 7;
}

abbrev fresh : ServerManager ℕ
fresh = new_server_manager (codes "/repo") (codes "warn") (codes "/tmp/gazelle")

abbrev attached : ServerManager ℕ
attached = elim (connect answers fresh) [ none ↦ fresh | some (m, r) ↦ m ]

attached_run : connect answers fresh ≡ some (attached, connected 7)
unfolding connect start read_port dial_port new_server_manager parse_int signed parse_uint digits
    ℕ_discrete
attached_run = refl

Steps-IsBalanced_example : IsBalanced (shutdown attached)
Steps-IsBalanced_example =
    Steps-IsBalanced (codes "/repo") (codes "warn") (codes "/tmp/gazelle") (shutdown attached) (
      after _ attached _
        (after _ fresh _ (done fresh) (connects answers fresh attached (connected 7) attached_run))
        (shuts_down attached))

answers-Dials : Dials answers
answers-Dials a = cc

connect-again_example :
    (m' : ServerManager ℕ) × (r : Connected ℕ) × (connect answers fresh ≡ some (m', r))
    × ((c : ℕ) → r ≡ connected c → (e' : Surroundings ℕ) → connect e' m' ≡ some (m', connected c))
connect-again_example = connect-again answers fresh slow-Sleeps answers-Dials

fresh_conn : fresh.conn ≡ none
unfolding new_server_manager
fresh_conn = refl

-- The port is there at the first look.
abbrev quick : Surroundings ℕ
quick = record answers {
  polls = λ i. record { elapsed = 10 * i; file = contents (decimal (pos 40123)) };
}

connect-decimal_example :
    (m' : ServerManager ℕ) × (connect quick fresh ≡ some (m', connected 7)) × (m'.conn ≡ some 7)
connect-decimal_example =
    connect-decimal quick fresh (codes "javaparser") (pos 40123) 7 fresh_conn refl refl
      (omega arith) refl in_range refl
