-- ===== src/Net/EventBase.antt =====
-- net/eventbase.h and net/eventbase.cpp: class EventBase. A set of epoll events is a flag for each
-- constant that the code names.
use sinetlib.Base.{
  ℕ, Bool, true, false, not, ◌&&◌, ◌||◌, ◌≡◌, List, [], ◌∷◌, ◌++◌, if◌then◌else◌, arith,
}

pub record Events : Type 0 where
  pub epoll_in : Bool
  pub epoll_pri : Bool
  pub epoll_out : Bool
  pub epoll_err : Bool
  pub epoll_hup : Bool
  pub epoll_rdhup : Bool

abbrev pub no_events : Events
no_events = record {
  epoll_in = false;
  epoll_pri = false;
  epoll_out = false;
  epoll_err = false;
  epoll_hup = false;
  epoll_rdhup = false;
}

-- Which of the callbacks are set.
pub record Callbacks : Type 0 where
  pub read_callback : Bool
  pub write_callback : Bool
  pub error_callback : Bool
  pub close_callback : Bool

pub record EventBase : Type 0 where
  pub fd : ℕ
  pub events : Events
  pub revents : Events
  pub callbacks : Callbacks

-- The constructor.
unfoldable pub new_event_base : ℕ → EventBase
new_event_base fd = record {
  fd = fd;
  events = record no_events { epoll_rdhup = true };
  revents = no_events;
  callbacks = record {
    read_callback = false;
    write_callback = false;
    error_callback = false;
    close_callback = false;
  };
}

unfoldable pub enable_read_events : Events → Events
enable_read_events e = record e { epoll_in = true; epoll_pri = true }

unfoldable pub enable_write_events : Events → Events
enable_write_events e = record e { epoll_out = true }

unfoldable pub disable_read_events : Events → Events
disable_read_events e = record e { epoll_in = false; epoll_pri = false }

unfoldable pub disable_write_events : Events → Events
disable_write_events e = record e { epoll_out = false }

unfoldable pub is_writing : Events → Bool
is_writing e = e.epoll_out

unfoldable pub set_revents : EventBase → Events → EventBase
set_revents e r = record e { revents = r }

pub data Call : Type 0 where
  close error read write : Call

-- A callback is called if it is set.
abbrev pub if_set : Bool → Call → List Call
if_set true c = c ∷ []
if_set false c = []

-- HandleEvent: the callbacks that it calls, in order.
unfoldable pub handle_event : EventBase → List Call
handle_event e =
    if e.revents.epoll_hup && not e.revents.epoll_in
    then if_set e.callbacks.close_callback close
    else if e.revents.epoll_rdhup
    then if_set e.callbacks.close_callback close
    else if e.revents.epoll_err
    then if_set e.callbacks.error_callback error ++ if_set e.callbacks.close_callback close
    else (if e.revents.epoll_in || e.revents.epoll_pri || e.revents.epoll_hup
        then if_set e.callbacks.read_callback read
        else [])
      ++ (if e.revents.epoll_out then if_set e.callbacks.write_callback write else [])

-- The peer has hung up, or the descriptor is broken.
abbrev pub is_broken : Events → Bool
is_broken r = (r.epoll_hup && not r.epoll_in) || r.epoll_rdhup || r.epoll_err

abbrev pub calls : Call → List Call → Bool
calls c [] = false
calls close (close ∷ cs) = true
calls error (error ∷ cs) = true
calls read (read ∷ cs) = true
calls write (write ∷ cs) = true
calls c (d ∷ cs) = calls c cs

-- With all four callbacks set, a broken descriptor is closed and neither read nor written; any other
-- is never closed, is read if something can be read, and written if it can be written.
pub handle_event_lem :
    (e : EventBase)
    → e.callbacks ≡ record {
      read_callback = true;
      write_callback = true;
      error_callback = true;
      close_callback = true;
    }
    → (calls close (handle_event e) ≡ is_broken e.revents)
      × (calls read (handle_event e) ≡ (
          not (is_broken e.revents)
          && (e.revents.epoll_in || e.revents.epoll_pri || e.revents.epoll_hup)))
      × (calls write (handle_event e) ≡ (not (is_broken e.revents) && e.revents.epoll_out))
unfolding handle_event
handle_event_lem e h = ground arith
