-- ===== src/MyClient/Pace.antt =====
-- The pace of the demonstration client: it waits for an answer before it sends again.
use mathlib.Core.Option.{some-injective, none-ne-some}
use cpp100net.Common.{
  ℕ, ◌+◌, ◌≤◌, ◌≡◌, ap, true, false, not, ◌&&◌, some, List, ltb, ◌==◌, if◌then◌else◌, arith,
  Bool-cases, Option-cases, inl, inr, copy_out,
}
use cpp100net.Common.Words.{of_le}
use cpp100net.Sockets.{Ret, socket_error, bytes}
use cpp100net.Client.{Client}
use cpp100net.Config.{Config}
use cpp100net.Message.{Cmd, code, Login, login_bytes}
use cpp100net.TcpClient.{TcpClient, send_msg}
use cpp100net.MyClient.{
  Settings, MyClient, create, on_net_msg, on_cmd, on_login_result, count_send, send_test, rested,
  check_send,
}

-- The states of a client after any order of its operations, with the number of messages it was given.
pub data Reach (settings : Settings) : ℕ → MyClient → Type 0 where
  start : (config : Config) → Reach settings 0 (create config)
  sends :
      {n : ℕ} {k : MyClient} (login : Login) (t : TcpClient) {ret : Ret} {login' : Login}
      {k' : MyClient} {t' : TcpClient}
      → Reach settings n k
      → send_test settings (login, k, t) ≡ some (ret, login', k', t')
      → Reach settings n k'
  gets :
      {n : ℕ} {k : MyClient} (header : List ℕ) (c : Client) {k' : MyClient} {c' : Client}
      → Reach settings n k
      → on_net_msg header (k, c) ≡ some (k', c')
      → Reach settings (n + 1) k'
  ticks :
      {n : ℕ} {k : MyClient} (dt : ℕ)
      → Reach settings n k
      → Reach settings n (check_send settings dt k).1

-- The numbers sent are at most the messages given, and one more while an answer is awaited.
abbrev Paced : ℕ → MyClient → Type 0
Paced n k = k.n_send_msg_id ≤ 1 + n + (if k.b_send then 1 else 0)

count_send-Paced :
    (settings : Settings) (ret : Ret) (n : ℕ) (k : MyClient)
    → settings.check_send_back ≡ true
    → k.b_send ≡ false
    → Paced n k
    → Paced n (count_send settings ret k)
unfolding count_send
count_send-Paced settings socket_error n k waits idle paced = paced
count_send-Paced settings (bytes b) n k waits idle paced =
    rw waits (let sent : k.n_send_msg_id ≤ 1 + n + 0 = rw idle at paced in omega arith)

may_send : (k : MyClient) → (ltb 0 k.n_send_count && not k.b_send) ≡ true → k.b_send ≡ false
may_send k e = ground arith

send_test-Paced :
    (settings : Settings) (n : ℕ) (k : MyClient) (login : Login) (t : TcpClient) {ret : Ret}
    {login' : Login} {k' : MyClient} {t' : TcpClient}
    → settings.check_send_back ≡ true
    → Paced n k
    → send_test settings (login, k, t) ≡ some (ret, login', k', t')
    → Paced n k'
unfolding send_test
send_test-Paced settings n k login t waits paced e =
    elim (Bool-cases (ltb 0 k.n_send_count && not k.b_send)) [
      | inr idle ↦ let same = some-injective _ _ (rw idle at e) in rw (← ap (λ x. x.2) same) paced
      | inl c ↦
          elim (Option-cases
            (send_msg (login_bytes (record login { msg_id = k.n_send_msg_id })) t)) [
              | inl failed ↦ absurd (none-ne-some _ (rw (c, failed) at e))
              | inr (r, sent) ↦
                  let same = some-injective _ _ (rw (c, sent) at e) in
                  rw (← ap (λ x. x.2) same)
                    (count_send-Paced settings r.0 n k waits (may_send k c) paced)
            ]
    ]

-- Answering a command touches neither the number to send next nor the wait.
abbrev Kept : MyClient → MyClient → Type 0
Kept k k' = (k.n_send_msg_id ≡ k'.n_send_msg_id) × (k.b_send ≡ k'.b_send)

on_login_result-Kept :
    (header : List ℕ) (k : MyClient) {k' : MyClient}
    → on_login_result header k ≡ some k'
    → Kept k k'
unfolding on_login_result
on_login_result-Kept header k e = elim (Bool-cases k.check_msg_id) [
  | inr skip ↦
      let same = some-injective _ _ (rw skip at e) in
      (ap MyClient.n_send_msg_id same, ap MyClient.b_send same)
  | inl check ↦ elim (Option-cases (copy_out header 96 4)) [
    | inl failed ↦ absurd (none-ne-some _ (rw (check, failed) at e))
    | inr (id, got) ↦
        let same = some-injective _ _ (rw (check, got) at e) in
        (ap MyClient.n_send_msg_id same, ap MyClient.b_send same)
  ]
]

on_cmd-Kept :
    (header : List ℕ) (cmd : ℕ) (k : MyClient) {k' : MyClient}
    → on_cmd header cmd k ≡ some k'
    → Kept k k'
unfolding on_cmd
on_cmd-Kept header cmd k e = elim (Bool-cases (cmd == code Cmd.login_result)) [
  | inl login ↦ on_login_result-Kept header k (rw login at e)
  | inr other ↦
      let same = some-injective _ _ (rw other at e) in
      (ap MyClient.n_send_msg_id same, ap MyClient.b_send same)
]

on_net_msg-Paced :
    (n : ℕ) (k : MyClient) (header : List ℕ) (c : Client) {k' : MyClient} {c' : Client}
    → Paced n k
    → on_net_msg header (k, c) ≡ some (k', c')
    → Paced (n + 1) k'
unfolding on_net_msg on_cmd on_login_result
on_net_msg-Paced n k header c {k'} paced e = elim (Option-cases (copy_out header 2 2)) [
  | inl failed ↦ absurd (none-ne-some _ (rw failed at e))
  | inr (cmd, got) ↦ elim (Option-cases (on_cmd header (of_le cmd) (record k { b_send = false }))) [
    | inl failed ↦ absurd (none-ne-some _ (rw (got, failed) at e))
    | inr (k1, done) ↦
        let same = some-injective _ _ (rw (got, done) at e) in
        let kept = on_cmd-Kept header (of_le cmd) (record k { b_send = false }) done in
        let (ids, idle) = rw (ap (λ x. x.0) same) at kept in ground arith
  ]
]

check_send-Paced :
    (settings : Settings) (dt n : ℕ) (k : MyClient)
    → Paced n k
    → Paced n (check_send settings dt k).1
unfolding check_send rested
check_send-Paced settings dt n k paced = ground arith

all_Paced :
    (settings : Settings) {n : ℕ} {k : MyClient}
    → settings.check_send_back ≡ true
    → Reach settings n k
    → Paced n k
unfolding create
all_Paced settings waits (start config) = omega arith
all_Paced settings waits (sends {n} {k} login t reach e) =
    send_test-Paced settings n k login t waits (all_Paced settings waits reach) e
all_Paced settings waits (gets {n} {k} header c reach e) =
    on_net_msg-Paced n k header c (all_Paced settings waits reach) e
all_Paced settings waits (ticks {n} {k} dt reach) =
    check_send-Paced settings dt n k (all_Paced settings waits reach)

-- Where answers are awaited, whatever the order of its operations, the number of the client's next
-- login is at most that of the messages it was given plus one, or plus two while it awaits an answer.
pub Reach_paced :
    (settings : Settings) {n : ℕ} {k : MyClient}
    → settings.check_send_back ≡ true
    → Reach settings n k
    → k.n_send_msg_id ≤ n + (if k.b_send then 2 else 1)
Reach_paced settings {n} {k} waits reach =
    let paced = all_Paced settings waits reach in ground arith
