-- ===== src/SmtpRecv/Reply.antt =====
-- smtp_recv/src/s.rs, smtp_recv/src/error.rs, and the `Action` of smtp_recv/src/session.rs. A
-- reply stands for the line that is sent; the answers to EHLO carry the host that they name.
use npm.SmtpRecv.Text.{Text}

pub data Reply : Type 0 where
  ok : Reply
  message_accepted : Reply
  message_accepted_forwarding : Reply
  auth_success : Reply
  data_start : Reply
  bye : Reply
  starttls_ready : Reply
  welcome : Reply
  auth_required : Reply
  auth_failed : Reply
  invalid_mail_syntax : Reply
  sender_rejected : Reply
  invalid_rcpt_syntax : Reply
  invalid_auth_plain : Reply
  bad_sequence_mail_rcpt : Reply
  bad_sequence_mail : Reply
  tls_already_active : Reply
  auth_mechanism_not_supported : Reply
  command_not_recognized : Reply
  no_such_user : Reply
  local_error : Reply
  spf_fail : Reply
  spf_temp_error : Reply
  auth_username_prompt : Reply
  auth_password_prompt : Reply
  auth_plain_prompt : Reply
  hello_tls : Text → Reply
  hello_starttls : Text → Reply
  hello_auth : Text → Reply

pub data SmtpError : Type 0 where
  io : SmtpError
  tls : SmtpError
  certificate : SmtpError
  auth : SmtpError
  anyhow : SmtpError
  no_sni : SmtpError
  no_certificate : Text → SmtpError
  invalid_email : SmtpError
  auth_required : SmtpError
  invalid_mail_from : SmtpError
  invalid_rcpt_to : SmtpError
  bad_sequence : Text → SmtpError
  invalid_auth_plain : SmtpError
  auth_mechanism_not_supported : SmtpError
  command_not_recognized : SmtpError
  invalid_tls_stream_type : SmtpError
  stream_none : SmtpError
  spf_fail : SmtpError

pub data Action : Type 0 where
  reply : Reply → Action
  handled : Action
  ok : Action
  quit : Reply → Action
  start_data : Reply → Action
