-- ===== src/Errors/Texts.antt =====
-- src/errors.rs: the texts that the errors print.
use Prim.Native.String.{String, ◌++◌}
use oneshot.Errors.{RecvError, recv_error, TryRecvError, RecvTimeoutError, timeout}

unfoldable pub send_text : String
send_text = "sending on a closed channel"

-- The `Debug` text. `type_name` is what the compiler gives as the name of the message type.
unfoldable pub send_debug : (type_name : String) → String
send_debug type_name = "SendError<" ++ type_name ++ ">(_)"

unfoldable pub recv_text : RecvError → String
recv_text recv_error = "receiving on a closed channel"

unfoldable pub try_recv_text : TryRecvError → String
try_recv_text TryRecvError.empty = "receiving on an empty channel"
try_recv_text TryRecvError.disconnected = "receiving on a closed channel"

unfoldable pub recv_timeout_text : RecvTimeoutError → String
recv_timeout_text timeout = "timed out waiting on channel"
recv_timeout_text RecvTimeoutError.disconnected = "channel is empty and sending half is closed"
