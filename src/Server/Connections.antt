-- ===== src/Server/Connections.antt =====
-- The connections of the server manager (java/gazelle/private/servermanager/servermanager.go), over rows of calls of
-- `Connect` and `Shutdown`.
use rules_jvm.Prelude.{
  codes, ◌≢◌, ◌≤◌, ◌≡◌, refl, ap, ◌∙◌, Bool, true, false, Option, none, some, List, [], ◌∷◌, ◌++◌,
  Text, length, arith, subst,
}
use rules_jvm.Server.{
  ℤ, contents, decimal, Dialed, blocked, refused, joined, Effect, started, opened,
  asked_to_shut_down, closed, ServerManager, Surroundings, Connected, connected, not_dialed,
  not_found, not_started, PortRead, port, timed_out, read_error, bad_port, dial_port, start,
  connect, shutdown, new_server_manager, command_args, jvm_flags, looks, read_port, address,
}
use rules_jvm.Server.Port.{InInt32, read_port-decimal, Sleeps, IsPort, read_port-Ends}

module _ {Conn : Type 0} where
  -- The connections that were opened, closed, and asked for the end of their server, the last one first.
  unfoldable pub openings : List (Effect Conn) → List Conn
  openings [] = []
  openings (started args ∷ es) = openings es
  openings (opened a c ∷ es) = c ∷ openings es
  openings (asked_to_shut_down c ∷ es) = openings es
  openings (closed c ∷ es) = openings es

  unfoldable pub closings : List (Effect Conn) → List Conn
  closings [] = []
  closings (started args ∷ es) = closings es
  closings (opened a c ∷ es) = closings es
  closings (asked_to_shut_down c ∷ es) = closings es
  closings (closed c ∷ es) = c ∷ closings es

  unfoldable pub requests : List (Effect Conn) → List Conn
  requests [] = []
  requests (started args ∷ es) = requests es
  requests (opened a c ∷ es) = requests es
  requests (asked_to_shut_down c ∷ es) = c ∷ requests es
  requests (closed c ∷ es) = requests es

  unfoldable pub starts_of : List (Effect Conn) → List (List Text)
  starts_of [] = []
  starts_of (started args ∷ es) = args ∷ starts_of es
  starts_of (opened a c ∷ es) = starts_of es
  starts_of (asked_to_shut_down c ∷ es) = starts_of es
  starts_of (closed c ∷ es) = starts_of es

  abbrev pub current : Option Conn → List Conn
  current none = []
  current (some c) = c ∷ []

  -- Read from the last effect back: a connection is closed right after its server was asked to shut down, and
  -- opened right after a server was started.
  abbrev pub InOrder : List (Effect Conn) → Type 0
  InOrder [] = Unit
  InOrder (started args ∷ es) = InOrder es
  InOrder (opened a c ∷ es) =
      ((args : List Text) × (rest : List (Effect Conn)) × (es ≡ started args ∷ rest)) × InOrder es
  InOrder (asked_to_shut_down c ∷ es) = InOrder es
  InOrder (closed c ∷ es) =
      ((rest : List (Effect Conn)) × (es ≡ asked_to_shut_down c ∷ rest)) × InOrder es

  -- The connections that are open are the one of the manager, each was opened for a server of its own, and each that
  -- was closed was asked before for the end of its server.
  pub record IsBalanced (m : ServerManager Conn) : Type 0 where
    pub open_ones : openings m.effects ≡ current m.conn ++ closings m.effects
    pub asked : requests m.effects ≡ closings m.effects
    pub served : length (openings m.effects) ≤ length (starts_of m.effects)
    pub in_order : InOrder m.effects

  pub new-IsBalanced : (w l t : Text) → IsBalanced (new_server_manager w l t)
  unfolding new_server_manager openings closings requests starts_of
  new-IsBalanced w l t = record {
    open_ones = refl;
    asked = refl;
    served = omega arith;
    in_order = tt;
  }

  shutdown-IsBalanced : (m : ServerManager Conn) → IsBalanced m → IsBalanced (shutdown m)
  unfolding shutdown
  shutdown-IsBalanced m b = go m.conn b.open_ones
    where
      go :
          (o : Option Conn)
          → openings m.effects ≡ current o ++ closings m.effects
          → IsBalanced (elim o [
            | none ↦ m
            | some c ↦ record m {
              conn = none;
              effects = closed c ∷ asked_to_shut_down c ∷ m.effects;
            }
          ])
      go none e = b
      go (some c) e =
          unfold openings closings requests starts_of in
          (record {
            open_ones = e;
            asked = ap (λ z. c ∷ z) b.asked;
            served = b.served;
            in_order = ((m.effects, refl), b.in_order);
          })

  -- A step of the manager, one for each way out of a call.
  pub data Step : ServerManager Conn → ServerManager Conn → Type 0 where
    connects :
        (e : Surroundings Conn) (m m' : ServerManager Conn) (r : Connected Conn)
        → connect e m ≡ some (m', r)
        → Step m m'
    shuts_down : (m : ServerManager Conn) → Step m (shutdown m)

  pub data Steps : ServerManager Conn → ServerManager Conn → Type 0 where
    done : (m : ServerManager Conn) → Steps m m
    after : (m m' m'' : ServerManager Conn) → Steps m m' → Step m' m'' → Steps m m''

  started-IsBalanced :
      (m : ServerManager Conn) (args : List Text)
      → IsBalanced m
      → IsBalanced (record m { effects = started args ∷ m.effects })
  unfolding openings closings requests starts_of
  started-IsBalanced m args b = record {
    open_ones = b.open_ones;
    asked = b.asked;
    served = omega (arith, b.served);
    in_order = b.in_order;
  }

  opened-IsBalanced :
      (m : ServerManager Conn) (args : List Text) (a : Text) (c : Conn)
      → m.conn ≡ none
      → IsBalanced m
      → IsBalanced (record m { conn = some c; effects = opened a c ∷ started args ∷ m.effects })
  unfolding openings closings requests starts_of
  opened-IsBalanced m args a c n b = record {
    open_ones = ap (λ z. c ∷ z) (b.open_ones ∙ ap (λ o. current o ++ closings m.effects) n);
    asked = b.asked;
    served = omega (arith, b.served);
    in_order = ((args, m.effects, refl), b.in_order);
  }

  -- What a call of `Connect` leaves, if it returns.
  Leaves : Option (ServerManager Conn × Connected Conn) → Type 0
  Leaves none = Unit
  Leaves (some (m, r)) = IsBalanced m

  dial-IsBalanced :
      (e : Surroundings Conn) (m : ServerManager Conn) (args : List Text) (r : PortRead)
      → m.conn ≡ none
      → IsBalanced m
      → Leaves (dial_port e (record m { effects = started args ∷ m.effects }) r)
  unfolding dial_port Leaves
  dial-IsBalanced e m args (port p) n b = go (e.dial (address p))
    where
      m' : ServerManager Conn
      m' = record m { effects = started args ∷ m.effects }

      go :
          (d : Dialed Conn)
          → Leaves (elim d [
            | blocked ↦ none
            | refused ↦ some (m', not_dialed)
            | joined c ↦ some (
              record m' { conn = some c; effects = opened (address p) c ∷ m'.effects },
              connected c,
            )
          ])
      go blocked = tt
      go refused = started-IsBalanced m args b
      go (joined c) = opened-IsBalanced m args (address p) c n b
  dial-IsBalanced e m args timed_out n b = started-IsBalanced m args b
  dial-IsBalanced e m args read_error n b = started-IsBalanced m args b
  dial-IsBalanced e m args (bad_port t) n b = started-IsBalanced m args b

  start-IsBalanced :
      (e : Surroundings Conn) (m : ServerManager Conn) (args : List Text)
      → m.conn ≡ none
      → IsBalanced m
      → Leaves (start e m args)
  unfolding start Leaves
  start-IsBalanced e m args n b = go (e.starts args) (read_port e.polls looks 0)
    where
      go :
          (s : Bool) (o : Option PortRead)
          → Leaves (elim s [
            | false ↦ some (m, not_started)
            | true ↦ elim o [
              | none ↦ none
              | some r ↦ dial_port e (record m { effects = started args ∷ m.effects }) r
            ]
          ])
      go false o = b
      go true none = tt
      go true (some r) = dial-IsBalanced e m args r n b

  connect-IsBalanced :
      (e : Surroundings Conn) (m : ServerManager Conn) → IsBalanced m → Leaves (connect e m)
  unfolding connect Leaves
  connect-IsBalanced e m b = go m.conn (e.locate_javaparser (jvm_flags m)) refl
    where
      go :
          (o : Option Conn) (l : Option Text)
          → m.conn ≡ o
          → Leaves (elim o [
            | some c ↦ some (m, connected c)
            | none ↦ elim l [
              | none ↦ some (m, not_found)
              | some parser ↦ start e m (command_args e m parser)
            ]
          ])
      go (some c) l n = b
      go none none n = b
      go none (some parser) n = start-IsBalanced e m (command_args e m parser) n b

  Step-IsBalanced : (m m' : ServerManager Conn) → Step m m' → IsBalanced m → IsBalanced m'
  unfolding Leaves
  Step-IsBalanced _ _ (connects e m m' r p) b = subst Leaves p (connect-IsBalanced e m b)
  Step-IsBalanced _ _ (shuts_down m) b = shutdown-IsBalanced m b

  -- After any row of calls from a new manager, the connections that were opened and not closed are the one of the
  -- manager or none. Every connection was opened right after a server was started, and was closed, if it was, right
  -- after its server was asked to shut down. No more connections were opened than servers were started.
  pub Steps-IsBalanced :
      (w l t : Text) (m : ServerManager Conn) → Steps (new_server_manager w l t) m → IsBalanced m
  Steps-IsBalanced w l t m s = go m s
    where
      go : (k : ServerManager Conn) → Steps (new_server_manager w l t) k → IsBalanced k
      go _ (done k) = new-IsBalanced w l t
      go _ (after j i k s' p) = Step-IsBalanced i k p (go i s')

  -- An answer, with the connection in the manager if it is one.
  abbrev Answers : Option (ServerManager Conn × Connected Conn) → Type 0
  Answers o =
      (m : ServerManager Conn) × (r : Connected Conn) × (o ≡ some (m, r))
      × ((c : Conn) → r ≡ connected c → m.conn ≡ some c)

  -- No dial waits for ever.
  abbrev pub Dials : Surroundings Conn → Type 0
  Dials e = (a : Text) → e.dial a ≢ blocked

  dial-Answers :
      (e : Surroundings Conn) (m : ServerManager Conn) (r : PortRead)
      → Dials e
      → Answers (dial_port e m r)
  unfolding dial_port
  dial-Answers e m (port p) h = go (e.dial (address p)) (h (address p))
    where
      go :
          (d : Dialed Conn)
          → d ≢ blocked
          → Answers (elim d [
            | blocked ↦ none
            | refused ↦ some (m, not_dialed)
            | joined c ↦ some (
              record m { conn = some c; effects = opened (address p) c ∷ m.effects },
              connected c,
            )
          ])
      go blocked n = absurd (n refl)
      go refused n = (_, _, refl, λ c q. ground (arith, q))
      go (joined c) n = (_, _, refl, λ d q. ground (arith, q))
  dial-Answers e m timed_out h = (_, _, refl, λ c q. ground (arith, q))
  dial-Answers e m read_error h = (_, _, refl, λ c q. ground (arith, q))
  dial-Answers e m (bad_port t) h = (_, _, refl, λ c q. ground (arith, q))

  start-Answers :
      (e : Surroundings Conn) (m : ServerManager Conn) (args : List Text)
      → Sleeps e.polls
      → Dials e
      → Answers (start e m args)
  unfolding start
  start-Answers e m args s w =
      go (e.starts args) (read_port e.polls looks 0) (read_port-Ends e.polls s)
    where
      go :
          (b : Bool) (o : Option PortRead)
          → (r : PortRead) × (o ≡ some r) × IsPort r
          → Answers (elim b [
            | false ↦ some (m, not_started)
            | true ↦ elim o [
              | none ↦ none
              | some r ↦ dial_port e (record m { effects = started args ∷ m.effects }) r
            ]
          ])
      go false o h = (_, _, refl, λ c q. ground (arith, q))
      go true none h = ground (arith, h.1)
      go true (some r) h = dial-Answers e _ r w

  connect-Answers :
      (e : Surroundings Conn) (m : ServerManager Conn)
      → Sleeps e.polls
      → Dials e
      → Answers (connect e m)
  unfolding connect
  connect-Answers e m s w = go m.conn (e.locate_javaparser (jvm_flags m)) refl
    where
      go :
          (o : Option Conn) (l : Option Text)
          → m.conn ≡ o
          → Answers (elim o [
            | some c ↦ some (m, connected c)
            | none ↦ elim l [
              | none ↦ some (m, not_found)
              | some parser ↦ start e m (command_args e m parser)
            ]
          ])
      go (some c) l n = (_, _, refl, λ d q. ground (arith, n, q))
      go none none n = (_, _, refl, λ c q. ground (arith, q))
      go none (some parser) n = start-Answers e m (command_args e m parser) s w

  connect-connected :
      (e : Surroundings Conn) (m : ServerManager Conn) (c : Conn)
      → m.conn ≡ some c
      → connect e m ≡ some (m, connected c)
  unfolding connect
  connect-connected e m c n = rw n

  -- When the looks at the port file are ten milliseconds apart and no dial waits for ever, `Connect` returns. A connection that it returns is what
  -- a next call returns too, without an effect and whatever the outside answers.
  pub connect-again :
      (e : Surroundings Conn) (m : ServerManager Conn)
      → Sleeps e.polls
      → Dials e
      → (m' : ServerManager Conn) × (r : Connected Conn) × (connect e m ≡ some (m', r))
        × ((c : Conn)
            → r ≡ connected c
            → (e' : Surroundings Conn) → connect e' m' ≡ some (m', connected c))
  connect-again e m s w =
      let (m', r, p, q) = connect-Answers e m s w in
      (m', r, p, λ c h e'. connect-connected e' m' c (q c h))

  connect-start :
      (e : Surroundings Conn) (m : ServerManager Conn) (parser : Text)
      → m.conn ≡ none
      → e.locate_javaparser (jvm_flags m) ≡ some parser
      → connect e m ≡ start e m (command_args e m parser)
  unfolding connect
  connect-start e m parser n found = ground (arith, n, found)

  start-dial :
      (e : Surroundings Conn) (m : ServerManager Conn) (args : List Text) (r : PortRead)
      → e.starts args ≡ true
      → read_port e.polls looks 0 ≡ some r
      → start e m args ≡ dial_port e (record m { effects = started args ∷ m.effects }) r
  unfolding start
  start-dial e m args r starts read = ground (arith, starts, read)

  dial_port-joined :
      (e : Surroundings Conn) (m : ServerManager Conn) (p : ℤ) (c : Conn)
      → e.dial (address p) ≡ joined c
      → dial_port e m (port p)
        ≡ some (record m { conn = some c; effects = opened (address p) c ∷ m.effects }, connected c)
  unfolding dial_port
  dial_port-joined e m p c answer = ground (arith, answer)

  -- When the parser is found and started, and the first look at the port file is in time and finds the decimal text of
  -- a number of int32, then `Connect` dials that very text behind "localhost:", and what answers there is the
  -- connection that it returns and keeps.
  pub connect-decimal :
      (e : Surroundings Conn) (m : ServerManager Conn) (parser : Text) (p : ℤ) (c : Conn)
      → m.conn ≡ none
      → e.locate_javaparser (jvm_flags m) ≡ some parser
      → e.starts (command_args e m parser) ≡ true
      → (e.polls 0).elapsed ≤ 10000
      → (e.polls 0).file ≡ contents (decimal p)
      → InInt32 p
      → e.dial (codes "localhost:" ++ decimal p) ≡ joined c
      → (m' : ServerManager Conn) × (connect e m ≡ some (m', connected c)) × (m'.conn ≡ some c)
  connect-decimal e m parser p c n found starts early file range answer =
      let read = read_port-decimal e.polls p early file range in
      (
        _,
        connect-start e m parser n found
            ∙ start-dial e m _ _ starts read
            ∙ dial_port-joined e _ p c answer,
        refl,
      )
