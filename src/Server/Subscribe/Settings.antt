-- ===== src/Server/Subscribe/Settings.antt =====
-- internal/server/subscribe.go: Server, its constructors and setters, and the connection that its handler
-- makes of them.
use labeler_relay.Prelude.{ℕ, zero, suc, Bool, Option, none, some, List, ℤ, Fault}
use labeler_relay.Store.Events.{LiveEvent}
use labeler_relay.Server.Subscribe.{StartFaults, effective_buf_size}
use labeler_relay.Server.Subscribe.Wire.{Connection}

pub record Server (W : Type 0) : Type 0 where
  pub retention_window_seconds : ℤ
  pub sub_buf_size : ℤ
  pub write_timeout : ℤ
  pub on_connect : Option (W → W)
  pub on_disconnect : Option (W → W)

abbrev pub ws_write_timeout : ℤ
ws_write_timeout = ℤ.pos 5000000000

-- Zero and less mean the default.
abbrev pub timeout_or_default : ℤ → ℤ
timeout_or_default (ℤ.pos zero) = ws_write_timeout
timeout_or_default (ℤ.pos (suc n)) = ℤ.pos (suc n)
timeout_or_default (ℤ.negsuc n) = ws_write_timeout

module _ {W : Type 0} where
  unfoldable pub new_server_with_buf_size : ℤ → ℤ → ℤ → Server W
  new_server_with_buf_size retention_window_seconds sub_buf_size write_timeout = record {
    retention_window_seconds = retention_window_seconds;
    sub_buf_size = sub_buf_size;
    write_timeout = write_timeout;
    on_connect = none;
    on_disconnect = none;
  }

  unfoldable pub new_server : ℤ → ℤ → Server W
  new_server retention_window_seconds sub_buf_size = record {
    retention_window_seconds = retention_window_seconds;
    sub_buf_size = sub_buf_size;
    write_timeout = ℤ.pos 0;
    on_connect = none;
    on_disconnect = none;
  }

  unfoldable pub set_connect_callback : (W → W) → Server W → Server W
  set_connect_callback fn s = record s { on_connect = some fn }

  unfoldable pub set_disconnect_callback : (W → W) → Server W → Server W
  set_disconnect_callback fn s = record s { on_disconnect = some fn }

  unfoldable pub effective_write_timeout : Server W → ℤ
  effective_write_timeout s = timeout_or_default s.write_timeout

  -- A connection of the server. The stream depends on the size of the subscriber's buffer.
  abbrev pub connection_of :
      Server W
      → Fault
      → StartFaults
      → Fault
      → (ℕ → ℤ → List LiveEvent)
      → (ℕ → Bool)
      → Bool
      → Connection W
  connection_of s upgrade start stream_fault stream write_fails cancelled = record {
    upgrade = upgrade;
    start = start;
    stream_fault = stream_fault;
    stream = stream (effective_buf_size s.sub_buf_size);
    write_fails = write_fails;
    cancelled = cancelled;
    on_connect = s.on_connect;
    on_disconnect = s.on_disconnect;
  }
