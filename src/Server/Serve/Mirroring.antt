-- ===== src/Server/Serve/Mirroring.antt =====
-- That a script sends the client the same whatever writers are registered.
use tacquito.Base.{Bytes}
use tacquito.Crypt.Connection.{write}
use tacquito.Server.Response.{Response, reply}
use tacquito.Server.Response.Agree.{
  Agree, Agree-refl, reply-Agree, deliver-Agree, next_handler-Agree, register_writer-Agree,
  register_writers-Agree,
}
use tacquito.Server.Serve.{
  Script, finish, call_reply, call_write, call_next, call_register_writer, execute,
}

module _ {H : Type 0} (md5 : Bytes → Bytes) (secret : Bytes) where
  pub execute-Agree :
      (script : Script H) (r s : Response H)
      → Agree r s
      → Agree (execute md5 secret script r) (execute md5 secret script s)
  unfolding execute
  execute-Agree finish r s a = a
  execute-Agree (call_reply v k) r s a =
      let (after, result) = reply-Agree md5 secret r s v a in
      rw (← result) (execute-Agree (k (reply md5 secret r v).1) _ _ after)
  execute-Agree (call_write p k) r s a =
      execute-Agree (k (write md5 secret p)) _ _ (deliver-Agree r s (write md5 secret p) a)
  execute-Agree (call_next n k) r s a = execute-Agree k _ _ (next_handler-Agree r s n a)
  execute-Agree (call_register_writer k) r s a = execute-Agree k _ _ (register_writers-Agree r s a)

  -- A writer in front of a script is not seen by the client.
  pub execute-register_writer :
      (script : Script H) (r : Response H)
      → Agree (execute md5 secret (call_register_writer script) r) (execute md5 secret script r)
  unfolding execute
  execute-register_writer script r =
      execute-Agree script _ _ (register_writer-Agree r r (Agree-refl r))
