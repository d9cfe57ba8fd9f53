-- ===== src/Comm.antt =====
-- comm/: the handlers of the ZeroMQ sockets. The library's answers are inputs; a handler counts the contexts and
-- the sockets that it has open.
use cyclone_distributed_task.Prelude.{
  ℕ, suc, ◌-◌, ◌&&◌, ◌==◌, text_eq, int_eq, Bool, true, false, Option, none, some, [], ◌∷◌, ◌++◌,
  Text, ℤ, pos, codes, is_nil, int_ltb, int_leb, not, if◌then◌else◌,
}
use cyclone_distributed_task.Py.Int
use cyclone_distributed_task.Py.Result.{Result, ok, err, runtime_error}
use cyclone_distributed_task.Py.Exec.{Exec, raise, lift, modify, ◌>>◌}

pub record Handler : Type 0 where
  pub target : Text
  pub port : ℤ
  pub timeout : ℤ
  pub endpoint : Text
  pub is_connected : Bool
  pub fqdn : Text
  pub open_contexts : ℕ
  pub open_sockets : ℕ
  pub registered : Bool

-- `port in range(1024, 65535)`
abbrev pub in_port_range : ℤ → Bool
in_port_range port = int_leb (pos 1024) port && int_ltb port (pos 65535)

-- `BaseHandler.__init__`; the last argument is what `socket.getfqdn()` gives.
unfoldable pub new_handler : Text → ℤ → ℤ → Text → Result Handler
new_handler target port timeout fqdn =
    if is_nil target
    then err runtime_error
    else if port == pos 0
    then err runtime_error
    else if not (in_port_range port)
    then err runtime_error
    else if int_ltb timeout (pos 0)
    then err runtime_error
    else if fqdn == codes "localhost"
    then err runtime_error
    else ok (record {
      target = target;
      port = port;
      timeout = timeout;
      endpoint = codes "tcp://" ++ target ++ (b':' ∷ Int.format port);
      is_connected = false;
      fqdn = fqdn;
      open_contexts = 0;
      open_sockets = 0;
      registered = false;
    })

-- The answers of the library to a `connect`: making the context, making the socket, and `bind` or `connect`
pub record Connection : Type 0 where
  pub context : Result (Unit {0})
  pub socket : Result (Unit {0})
  pub attach : Result (Unit {0})

abbrev pub Op : Type 0
Op = Exec Handler (Unit {0})

-- `connect` of the handlers of the master, of the controllers and of the proxies
unfoldable pub connect : Connection → Op
connect answers = do
  lift answers.context
  modify (λ h. record h { open_contexts = suc h.open_contexts })
  lift answers.socket
  modify (λ h. record h { open_sockets = suc h.open_sockets })
  lift answers.attach
  modify (λ h. record h { registered = true })
  modify (λ h. record h { is_connected = true })

-- `disconnect`
unfoldable pub disconnect : Handler → Handler
disconnect h =
    if h.is_connected
    then record h {
      registered = false;
      open_sockets = h.open_sockets - 1;
      open_contexts = h.open_contexts - 1;
      is_connected = false;
    }
    else h

-- `reconnect`
unfoldable pub reconnect : Connection → Op
unfolding connect
reconnect answers h = connect answers (disconnect h)

-- `recv_string`: whether the poll names the socket, and the text that the socket gives then
unfoldable pub recv_string : (readable : Bool) → Text → Option Text
recv_string false message = none
recv_string true [] = none
recv_string true (c ∷ message) = some (c ∷ message)

-- `TaskCommHandler.disconnect` and `TaskCommHandler.recv_string`
unfoldable pub not_supported : Op
not_supported = raise runtime_error
