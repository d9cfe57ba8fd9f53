-- ===== src/Msg/RoundTrip.antt =====
-- What a message says, apart from its text, and that the text carries it (msg/).
use cyclone_distributed_task.Prelude.{
  ℕ, ◌≡◌, ◌≢◌, ◌∙◌, ap, refl, some, [], ◌∷◌, ◌++◌, arith, Text, ℤ, inr,
}
use cyclone_distributed_task.Py.Result.{Result, ok}
use cyclone_distributed_task.Py.Int
use cyclone_distributed_task.Py.Str.{split, Lacks, split-Lacks, split-append_sep}
use cyclone_distributed_task.Msg.Message.{
  task_request, task_finished, wait_command, acknowledge, heartbeat, exit_command, Message,
  field_separator, to_string, sender, tid, duration, task_req, new_task_request, new_task_finished,
  new_acknowledge, new_wait_command, new_heartbeat, new_exit_command, ack, heartbeat_type, task_fin,
  wait_cmd, exit_cmd,
}
use cyclone_distributed_task.Msg.Factory.{create}
use cyclone_distributed_task.Py.Int.RoundTrip.{format-Lacks, format-cons, parse-format}

-- What the two sides tell one another, but for the assignment of a task.
pub data Packet : Type 0 where
  request alive : (sender : Text) → Packet
  finished : (sender tid : Text) → Packet
  acknowledged leave : Packet
  wait : (duration : ℤ) → Packet

abbrev pub build : Packet → Result Message
build (Packet.request s) = new_task_request s
build (Packet.alive s) = new_heartbeat s
build (Packet.finished s t) = new_task_finished s t
build Packet.acknowledged = new_acknowledge
build Packet.leave = new_exit_command
build (Packet.wait z) = new_wait_command (Int.format z)

abbrev IsField : Text → Type 0
IsField s = (s ≢ []) × Lacks field_separator s

-- The names in the packet are not empty and hold no separator.
abbrev pub IsClean : Packet → Type 0
IsClean (Packet.request s) = IsField s
IsClean (Packet.alive s) = IsField s
IsClean (Packet.finished s t) = IsField s × IsField t
IsClean _ = Unit

-- The accessors of the message give the packet's fields.
abbrev pub Reads : Packet → Message → Type 0
Reads (Packet.request s) m = (m.kind ≡ task_request) × (sender m ≡ ok s)
Reads (Packet.alive s) m = (m.kind ≡ heartbeat) × (sender m ≡ ok s)
Reads (Packet.finished s t) m = (m.kind ≡ task_finished) × (sender m ≡ ok s) × (tid m ≡ ok t)
Reads Packet.acknowledged m = m.kind ≡ acknowledge
Reads Packet.leave m = m.kind ≡ exit_command
Reads (Packet.wait z) m = (m.kind ≡ wait_command) × (duration m ≡ ok z)

-- `build` makes a message of the packet, and its text is read as that message.
pub record Arrives (p : Packet) : Type 0 where
  pub message : Message
  pub built : build p ≡ ok message
  pub read : create (to_string message) ≡ ok message
  pub says : Reads p message

split_two :
    (h s : Text)
    → Lacks field_separator h
    → Lacks field_separator s
    → split field_separator (h ++ (field_separator ∷ s)) ≡ h ∷ s ∷ []
split_two h s lh ls =
    split-append_sep field_separator h s lh ∙ ap (λ r. h ∷ r) (split-Lacks field_separator s ls)

split_three :
    (h s t : Text)
    → Lacks field_separator h
    → Lacks field_separator s
    → Lacks field_separator t
    → split field_separator (h ++ (field_separator ∷ (s ++ (field_separator ∷ t)))) ≡ h ∷ s ∷ t ∷ []
split_three h s t lh ls lt =
    split-append_sep field_separator h (s ++ (field_separator ∷ t)) lh
    ∙ ap (λ r. h ∷ r) (split_two s t ls lt)

-- The messages with a name and with a name and an id
abbrev pub request_of : Text → Message
request_of s = record { kind = task_request; header = task_req; body = some s }

abbrev pub report_of : Text → Text → Message
report_of s t = record {
  kind = task_finished;
  header = task_fin;
  body = some (s ++ (field_separator ∷ t));
}

pub read-request :
    (c : ℕ) (s : Text)
    → Lacks field_separator (c ∷ s)
    → create (to_string (request_of (c ∷ s))) ≡ ok (request_of (c ∷ s))
unfolding to_string create new_task_request
read-request c s l = rw (split_two task_req (c ∷ s) (omega arith) l)

pub read-report :
    (c d : ℕ) (s t : Text)
    → Lacks field_separator (c ∷ s)
    → Lacks field_separator (d ∷ t)
    → (create (to_string (report_of (c ∷ s) (d ∷ t))) ≡ ok (report_of (c ∷ s) (d ∷ t)))
      × (sender (report_of (c ∷ s) (d ∷ t)) ≡ ok (c ∷ s))
      × (tid (report_of (c ∷ s) (d ∷ t)) ≡ ok (d ∷ t))
unfolding to_string create sender tid new_task_finished
read-report c d s t ls lt = (
  rw (split_three task_fin (c ∷ s) (d ∷ t) (omega arith) ls lt),
  rw (split_two (c ∷ s) (d ∷ t) ls lt),
  rw (split_two (c ∷ s) (d ∷ t) ls lt),
)

Arrives-request :
    (c : ℕ) (s : Text) → Lacks field_separator (c ∷ s) → Arrives (Packet.request (c ∷ s))
unfolding new_task_request sender
Arrives-request c s l = record {
  message = request_of (c ∷ s);
  built = refl;
  read = read-request c s l;
  says = (refl, refl);
}

Arrives-alive : (c : ℕ) (s : Text) → Lacks field_separator (c ∷ s) → Arrives (Packet.alive (c ∷ s))
unfolding new_heartbeat to_string create sender
Arrives-alive c s l = record {
  message = record { kind = heartbeat; header = heartbeat_type; body = some (c ∷ s) };
  built = refl;
  read = rw (split_two heartbeat_type (c ∷ s) (omega arith) l);
  says = (refl, refl);
}

Arrives-finished :
    (c d : ℕ) (s t : Text)
    → Lacks field_separator (c ∷ s)
    → Lacks field_separator (d ∷ t)
    → Arrives (Packet.finished (c ∷ s) (d ∷ t))
unfolding new_task_finished
Arrives-finished c d s t ls lt =
    let (read, from, id) = read-report c d s t ls lt in
    record {
      message = report_of (c ∷ s) (d ∷ t);
      built = refl;
      read = read;
      says = (refl, from, id);
    }

Arrives-wait : (z : ℤ) (c : ℕ) (s : Text) → Int.format z ≡ c ∷ s → Arrives (Packet.wait z)
unfolding new_wait_command to_string create duration
Arrives-wait z c s e = record {
  message = record { kind = wait_command; header = wait_cmd; body = some (Int.format z) };
  built = rw e;
  read = rw e (
      rw (
        split_two wait_cmd (c ∷ s) (omega arith)
          (rw e at (format-Lacks field_separator z (omega arith) (inr (omega arith))))));
  says = (refl, parse-format z);
}

-- A packet whose names are set and hold no separator is built into a message without an
-- exception, the factory reads the text of that message as the same message, and the accessors
-- of the message (`sender`, `tid`, `duration`) give the fields of the packet.
pub packet-Arrives : (p : Packet) → IsClean p → Arrives p
packet-Arrives (Packet.request []) h = absurd (h.0 refl)
packet-Arrives (Packet.request (c ∷ s)) h = Arrives-request c s h.1
packet-Arrives (Packet.alive []) h = absurd (h.0 refl)
packet-Arrives (Packet.alive (c ∷ s)) h = Arrives-alive c s h.1
packet-Arrives (Packet.finished [] t) h = absurd (h.0.0 refl)
packet-Arrives (Packet.finished (c ∷ s) []) h = absurd (h.1.0 refl)
packet-Arrives (Packet.finished (c ∷ s) (d ∷ t)) h = Arrives-finished c d s t h.0.1 h.1.1
packet-Arrives Packet.acknowledged h = record {
  message = record { kind = acknowledge; header = ack; body = some [] };
  built = unfold new_acknowledge in refl;
  read = unfold to_string create split new_acknowledge in refl;
  says = refl;
}
packet-Arrives Packet.leave h = record {
  message = record { kind = exit_command; header = exit_cmd; body = some [] };
  built = unfold new_exit_command in refl;
  read = unfold to_string create split new_exit_command in refl;
  says = refl;
}
packet-Arrives (Packet.wait z) h = let (c, s, e) = format-cons z in Arrives-wait z c s e
