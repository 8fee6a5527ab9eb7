-- ===== src/SmtpSend/Tests.antt =====
-- Deliveries over small networks, and the theorems at concrete inputs.
use npm.Common.{ℕ, ◌+◌, true, false, List, [], ◌∷◌, inl, inr, ◌≡◌, refl}
use npm.Text.{Text, codes, text_eq}
use npm.Idns.Records.{records, Mx}
use npm.SmtpSend.{Smtp, MailMessage, sent, broken, send_err, send_domain}
use npm.SmtpSend.Counts.{IsCounted, send_domain-IsCounted}
use npm.SmtpSend.Lost.{Losing}

abbrev mx : ℕ → Text → Mx
mx priority server = record { priority = priority; server = server; ttl = 60 }

abbrev mail : List Text → MailMessage
mail to_li = record {
  sender_user = codes "a";
  sender_host = codes "b.c";
  domain = codes "d.e";
  to_li = to_li;
  body = codes "hi";
}

-- The state counts the mails that were sent; a connection is its server. Every mail breaks the
-- connection, which does not come back.
abbrev losing_net : Smtp ℕ Text ℕ ℕ
losing_net = record {
  connect = λ server n. (inl server, n);
  send = λ c m n. (broken 7, n + 1);
  rset = λ c n. (false, n);
}

abbrev losing_net_Losing : Losing losing_net
losing_net_Losing = record {
  connects = λ server w. (server, refl);
  breaks = λ c m w. (7, refl);
  stays_broken = λ c w. refl;
}

abbrev two : List Text
two = codes "x@d.e" ∷ codes "y@d.e" ∷ []

-- One receiver hears of the broken connection.
single_run :
    (send_domain losing_net (records (mx 1 (codes "m") ∷ [])) (mail (codes "x@d.e" ∷ [])) 0).0
    ≡ record { error_li = send_err (codes "x@d.e") (codes "m") 7 ∷ []; success = 0 }
unfolding send_domain
single_run = refl

-- The server `m` cannot be reached, and `n` takes mails to one receiver only.
abbrev single_net : Smtp ℕ Text ℕ ℕ
single_net = record {
  connect =
      λ server n. (elim (text_eq server (codes "m")) [ true ↦ inr 3 | false ↦ inl server ], n);
  send = λ c m n.
      (elim m.to_li [ [] ↦ broken 4 | x ∷ xs ↦ elim xs [ [] ↦ sent | y ∷ ys ↦ broken 5 ] ], n + 1);
  rset = λ c n. (true, n);
}

abbrev both : List Mx
both = mx 1 (codes "m") ∷ mx 2 (codes "n") ∷ []

send_domain-IsCounted_example :
    IsCounted single_net two (send_domain single_net (records both) (mail two) 0).0
send_domain-IsCounted_example = send_domain-IsCounted single_net (records both) (mail two) 0

single_net_run :
    (send_domain single_net (records both) (mail two) 0).0 ≡ record { error_li = []; success = 2 }
unfolding send_domain text_eq
single_net_run = refl
