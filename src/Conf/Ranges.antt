-- ===== src/Conf/Ranges.antt =====
-- The bounds that a controller's settings and the handler of its socket keep.
use cyclone_distributed_task.Prelude.{
  ℕ, ◌≤◌, ◌≡◌, refl, arith, true, false, Bool, ◌||◌, Text, ℤ, pos, negsuc, int_ltb, text_eq, int_eq,
  is_nil, ◌==◌,
}
use cyclone_distributed_task.Py.Result.{
  Result, ok, err, ◌>>=◌, ◌>>◌, raise_if, config_value_error, Error,
}
use cyclone_distributed_task.Conf.{
  ControllerSettings, validate, read_controller_settings, codes, assign_controller_settings,
}
use cyclone_distributed_task.Comm.{in_port_range, new_handler, Handler}

-- An integer between two natural numbers
abbrev pub Within : ℕ → ℤ → ℕ → Type 0
Within low z high = (n : ℕ) × (z ≡ pos n) × (low ≤ n) × (n ≤ high)

raise_if-ok : (b : Bool) (e : Error) → raise_if b e ≡ ok tt → b ≡ false
raise_if-ok true e h = cc
raise_if-ok false e h = refl

count_bounds : (z : ℤ) → (int_ltb z (pos 1) || int_ltb (pos 1000) z) ≡ false → Within 1 z 1000
count_bounds (pos n) h = (n, refl, ground arith, ground arith)
count_bounds (negsuc n) h = cc

validate-Within : (c : ControllerSettings) → validate c ≡ ok tt → Within 1 c.worker_count 1000
unfolding validate
validate-Within c h = count_bounds c.worker_count (raise_if-ok _ config_value_error h)

read-Within :
    (isfile : Bool) (get : Text → Text → Result Text) (c : ControllerSettings)
    → read_controller_settings isfile get ≡ ok c
    → Within 1 c.worker_count 1000
unfolding read_controller_settings
read-Within isfile get c read = go (assign_controller_settings isfile get) read
  where
    checked :
        (s : ControllerSettings) (r : Result (Unit {0}))
        → validate s ≡ r
        → (r >> ok s) ≡ ok c
        → Within 1 c.worker_count 1000
    checked s (ok _) valid e = let same : s ≡ c = cc e in rw (← same) (validate-Within s valid)
    checked s (err x) valid e = cc e

    go :
        (r : Result ControllerSettings)
        → (r >>= λ s. validate s >> ok s) ≡ ok c
        → Within 1 c.worker_count 1000
    go (ok s) e = checked s (validate s) refl e
    go (err x) e = cc e

port_bounds : (z : ℤ) → in_port_range z ≡ true → Within 1024 z 65534
port_bounds (pos n) h = (n, refl, ground arith, ground arith)
port_bounds (negsuc n) h = cc

-- What the constructor of a handler has checked
record Accepted (target : Text) (port timeout : ℤ) (fqdn : Text) : Type 0 where
  target_set : is_nil target ≡ false
  port_in_range : in_port_range port ≡ true
  timeout_in_range : int_ltb timeout (pos 0) ≡ false
  fqdn_meaningful : fqdn == codes "localhost" ≡ false

new_handler-Accepted :
    (target : Text) (port timeout : ℤ) (fqdn : Text) (h : Handler)
    → new_handler target port timeout fqdn ≡ ok h
    → Accepted target port timeout fqdn
unfolding new_handler
new_handler-Accepted target port timeout fqdn h made =
    go (is_nil target) refl (port == pos 0) refl (in_port_range port) refl (int_ltb timeout (pos 0))
      refl (fqdn == codes "localhost") refl made
  where
    go :
        (a : Bool)
        → is_nil target ≡ a
        → (b : Bool) → port == pos 0 ≡ b
        → (c : Bool) → in_port_range port ≡ c
        → (d : Bool) → int_ltb timeout (pos 0) ≡ d
        → (e : Bool) → fqdn == codes "localhost" ≡ e
        → new_handler target port timeout fqdn ≡ ok h
        → Accepted target port timeout fqdn
    go true a b _ c _ d _ e _ m = cc (a, m)
    go false a true b c _ d _ e _ m = cc (a, b, m)
    go false a false b false c d _ e _ m = cc
    go false a false b true c true d e _ m = cc
    go false a false b true c false d true e m = cc
    go false a false b true c false d false e m = record {
      target_set = a;
      port_in_range = c;
      timeout_in_range = d;
      fqdn_meaningful = e;
    }

-- Where the settings of a controller are read and the handler of its socket is made from them, there are one to a
-- thousand workers, the port lies between 1024 and 65534, and the time to wait for an answer is not negative.
pub settings-Within :
    (isfile : Bool) (get : Text → Text → Result Text) (c : ControllerSettings) (fqdn : Text)
    (h : Handler)
    → read_controller_settings isfile get ≡ ok c
    → new_handler c.comm_target c.comm_port c.poll_timeout fqdn ≡ ok h
    → Within 1 c.worker_count 1000
      × Within 1024 c.comm_port 65534
      × (int_ltb c.poll_timeout (pos 0) ≡ false)
settings-Within isfile get c fqdn h read made =
    let checked = new_handler-Accepted c.comm_target c.comm_port c.poll_timeout fqdn h made in
    (
      read-Within isfile get c read,
      port_bounds c.comm_port checked.port_in_range,
      checked.timeout_in_range,
    )
