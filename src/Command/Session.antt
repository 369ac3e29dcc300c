-- ===== src/Command/Session.antt =====
-- What `execute` does to the state of the connection, and when it closes it.
use ralphdb.Prelude.{
  ℕ, ◌≡◌, refl, Bool, true, false, Option, none, some, List, [], ◌∷◌, arith, Bytes, codes, bytes_eq,
  not, ◌&&◌, ◌||◌, if◌then◌else◌, ◌==◌, ap, sym, subst, eq_of_bytes_eq,
}
use ralphdb.Storage.Map.{DashMap}
use ralphdb.Storage.Ops.{Entry, World}
use ralphdb.Protocol.Frame.{Frame, error, resp2, resp3}
use ralphdb.Text.Utf8.{from_utf8_lossy}
use ralphdb.Text.Ascii.{to_ascii_uppercase}
use ralphdb.Command.Types.{Command, ConnectionState, CommandResult}
use ralphdb.Command.Config.{Host}
use ralphdb.Command.Handlers.{hello, hello_version, parse_version}
use ralphdb.Command.Client.{client, client_subcommand, client_setname}
use ralphdb.Command.Execute.{execute, execute_named, Execution}

-- The state after HELLO asks for a version: 2 and 3 are the versions there are.
abbrev pub switched : Option ℕ → ConnectionState → ConnectionState
switched none state = state
switched (some version) state =
    if version == 3
    then record state { protocol = resp3 }
    else if version == 2
    then record state { protocol = resp2 }
    else state

hello_version-client_id :
    (version : Option ℕ) (state : ConnectionState)
    → (hello_version version state).1.client_id ≡ state.client_id
unfolding hello_version
hello_version-client_id none state = refl
hello_version-client_id (some version) state = ground arith

hello-client_id :
    (args : List Bytes) (state : ConnectionState) → (hello args state).1.client_id ≡ state.client_id
unfolding hello
hello-client_id [] state = hello_version-client_id (some 2) state
hello-client_id (v ∷ []) state = hello_version-client_id (parse_version v) state
hello-client_id (v ∷ w ∷ args) state = refl

client_setname-client_id :
    (args : List Bytes) (state : ConnectionState)
    → (client_setname args state).1.client_id ≡ state.client_id
unfolding client_setname
client_setname-client_id [] state = refl
client_setname-client_id (n ∷ []) state = refl
client_setname-client_id (n ∷ m ∷ args) state = refl

client_setname-protocol :
    (args : List Bytes) (state : ConnectionState)
    → (client_setname args state).1.protocol ≡ state.protocol
unfolding client_setname
client_setname-protocol [] state = refl
client_setname-protocol (n ∷ []) state = refl
client_setname-protocol (n ∷ m ∷ args) state = refl

client-client_id :
    (args : List Bytes) (state : ConnectionState)
    → (client args state).1.client_id ≡ state.client_id
unfolding client client_subcommand
client-client_id [] state = refl
client-client_id (s ∷ args) state = ground (arith, client_setname-client_id args state)

client-protocol :
    (args : List Bytes) (state : ConnectionState) → (client args state).1.protocol ≡ state.protocol
unfolding client client_subcommand
client-protocol [] state = refl
client-protocol (s ∷ args) state = ground (arith, client_setname-protocol args state)

-- The version that the arguments of HELLO ask for.
abbrev pub requested : List Bytes → Option ℕ
requested [] = some 2
requested (version ∷ []) = parse_version version
requested (_ ∷ _ ∷ _) = none

-- The versions there are.
abbrev pub supported : Option ℕ → Bool
supported none = false
supported (some version) = version == 3 || version == 2

abbrev pub is_error : Frame → Bool
is_error (error _) = true
is_error _ = false

-- The name that CLIENT SETNAME gives; no other subcommand changes the state.
abbrev pub renamed : List Bytes → ConnectionState → ConnectionState
renamed (subcommand ∷ name ∷ []) state =
    if bytes_eq (to_ascii_uppercase (from_utf8_lossy subcommand)) (codes "SETNAME")
    then record state { client_name = some name }
    else state
renamed _ state = state

-- The state of the connection behind a command.
abbrev pub session_after : Bytes → List Bytes → ConnectionState → ConnectionState
session_after name args state =
    if bytes_eq name (codes "HELLO")
    then switched (requested args) state
    else if bytes_eq name (codes "CLIENT")
    then renamed args state
    else state

hello_version-state :
    (version : Option ℕ) (state : ConnectionState)
    → ((hello_version version state).1 ≡ switched version state)
      × (is_error (hello_version version state).0.response ≡ not (supported version))
unfolding hello_version
hello_version-state none state = (refl, refl)
hello_version-state (some version) state = (ground arith, ground arith)

hello-state :
    (args : List Bytes) (state : ConnectionState)
    → ((hello args state).1 ≡ switched (requested args) state)
      × (is_error (hello args state).0.response ≡ not (supported (requested args)))
unfolding hello
hello-state [] state = hello_version-state (some 2) state
hello-state (v ∷ []) state = hello_version-state (parse_version v) state
hello-state (v ∷ w ∷ args) state = (refl, refl)

client-state :
    (args : List Bytes) (state : ConnectionState) → (client args state).1 ≡ renamed args state
unfolding client client_subcommand client_setname
client-state [] state = refl
client-state (s ∷ []) state = ground arith
client-state (s ∷ n ∷ []) state = ground arith
client-state (s ∷ n ∷ m ∷ args) state = ground arith

module _ (dash : DashMap Entry) (clock : ℕ → ℕ) (host : Host) where
  -- A predicate on what a command returns.
  record Holds (P : CommandResult × ConnectionState → Type 0)
      (o : (CommandResult × ConnectionState) × World dash.Map) : Type 0 where
    it : P o.0

  module _ (P : CommandResult × ConnectionState → Type 0) where
    Holds-if :
        (b : Bool) (x y : Execution dash clock host) (w : World dash.Map)
        → (b ≡ true → Holds P (x w))
        → Holds P (y w)
        → Holds P ((if b then x else y) w)
    Holds-if true x y w h k = h refl
    Holds-if false x y w h k = k

    -- All commands but HELLO and CLIENT leave the state alone.
    execute_named-Holds :
        (name : Bytes) (args : List Bytes) (state : ConnectionState) (w : World dash.Map)
        → ((o : (CommandResult × ConnectionState) × World dash.Map) → o.0.1 ≡ state → Holds P o)
        → (bytes_eq name (codes "HELLO") ≡ true → Holds P (hello args state, w))
        → (bytes_eq name (codes "CLIENT") ≡ true → Holds P (client args state, w))
        → Holds P (execute_named dash clock host name args state w)
    unfolding execute_named
    execute_named-Holds name args state w plain on_hello on_client =
        Holds-if (bytes_eq name (codes "PING")) _ _ w (λ h. plain _ refl)
          (Holds-if (bytes_eq name (codes "ECHO")) _ _ w (λ h. plain _ refl)
            (Holds-if (bytes_eq name (codes "HELLO")) _ _ w on_hello (
              Holds-if (bytes_eq name (codes "INFO")) _ _ w (λ h. plain _ refl)
                (Holds-if (bytes_eq name (codes "CONFIG")) _ _ w (λ h. plain _ refl)
                  (Holds-if (bytes_eq name (codes "CLIENT")) _ _ w on_client (
                    Holds-if (bytes_eq name (codes "QUIT")) _ _ w (λ h. plain _ refl)
                      (Holds-if (bytes_eq name (codes "SET")) _ _ w (λ h. plain _ refl)
                        (Holds-if (bytes_eq name (codes "GET")) _ _ w (λ h. plain _ refl)
                          (Holds-if (bytes_eq name (codes "DEL")) _ _ w (λ h. plain _ refl)
                            (Holds-if (bytes_eq name (codes "EXISTS")) _ _ w (λ h. plain _ refl)
                              (Holds-if (bytes_eq name (codes "INCR")) _ _ w (λ h. plain _ refl)
                                (Holds-if (bytes_eq name (codes "DECR")) _ _ w (λ h. plain _ refl)
                                  (Holds-if (bytes_eq name (codes "MGET")) _ _ w (λ h. plain _ refl)
                                    (Holds-if (bytes_eq name (codes "MSET")) _ _ w
                                      (λ h. plain _ refl)
                                      (Holds-if (bytes_eq name (codes "EXPIRE")) _ _ w
                                        (λ h. plain _ refl)
                                        (Holds-if (bytes_eq name (codes "TTL")) _ _ w
                                          (λ h. plain _ refl) (plain _ refl)))))))))))))))))

  -- No command changes the id of the client.
  pub execute-client_id :
      (command : Command) (state : ConnectionState) (w : World dash.Map)
      → (execute dash clock host command state w).0.1.client_id ≡ state.client_id
  unfolding execute
  execute-client_id command state w =
      (execute_named-Holds (λ r. r.1.client_id ≡ state.client_id) command.name command.args state w
        (λ o e. record { it = ap (λ s. s.client_id) e })
        (λ h. record { it = hello-client_id command.args state })
        (λ h. record { it = client-client_id command.args state })).it

  -- What is stated of a command of the name: its state, and when a HELLO answers with an error.
  abbrev Answered : Bytes → List Bytes → ConnectionState → CommandResult × ConnectionState → Type 0
  Answered name args state r =
      (r.1 ≡ session_after name args state)
      × ((bytes_eq name (codes "HELLO") && is_error r.0.response)
          ≡ (bytes_eq name (codes "HELLO") && not (supported (requested args))))

  hello_answers :
      (args : List Bytes) (state : ConnectionState) (w : World dash.Map)
      → Answered
          (codes "HELLO")
          args
          state
          (execute_named dash clock host (codes "HELLO") args state w).0
  unfolding execute_named
  hello_answers args state w = hello-state args state

  client_answers :
      (args : List Bytes) (state : ConnectionState) (w : World dash.Map)
      → Answered
          (codes "CLIENT")
          args
          state
          (execute_named dash clock host (codes "CLIENT") args state w).0
  unfolding execute_named
  client_answers args state w = (client-state args state, refl)

  answers :
      (name : Bytes) (args : List Bytes) (state : ConnectionState) (w : World dash.Map)
      (is_hello is_client : Bool)
      → bytes_eq name (codes "HELLO") ≡ is_hello
      → bytes_eq name (codes "CLIENT") ≡ is_client
      → Answered name args state (execute_named dash clock host name args state w).0
  answers name args state w true c h k =
      subst (λ n. Answered n args state (execute_named dash clock host n args state w).0)
        (sym (eq_of_bytes_eq name (codes "HELLO") h)) (hello_answers args state w)
  answers name args state w false true h k =
      subst (λ n. Answered n args state (execute_named dash clock host n args state w).0)
        (sym (eq_of_bytes_eq name (codes "CLIENT") k)) (client_answers args state w)
  answers name args state w false false h k =
      let same : (execute_named dash clock host name args state w).0.1 ≡ state =
        (execute_named-Holds (λ r. r.1 ≡ state) name args state w (λ o e. record { it = e })
          (λ h'. cc (h, h')) (λ k'. cc (k, k'))).it in
      rw (h, k) (same, refl)

  -- The state behind a command is known from its name and its arguments: HELLO changes the protocol
  -- to the version 2 or 3 that its arguments ask for (2 where there are none) and nothing else,
  -- CLIENT SETNAME with one name changes the client's name, and no other command changes anything.
  -- A HELLO answers with an error exactly if it asks for no such version, and then the state stays.
  pub execute-session :
      (command : Command) (state : ConnectionState) (w : World dash.Map)
      → ((execute dash clock host command state w).0.1
          ≡ session_after command.name command.args state)
        × ((bytes_eq command.name (codes "HELLO")
              && is_error (execute dash clock host command state w).0.0.response)
            ≡ (bytes_eq command.name (codes "HELLO") && not (supported (requested command.args))))
  unfolding execute
  execute-session command state w = answers command.name command.args state w _ _ refl refl
