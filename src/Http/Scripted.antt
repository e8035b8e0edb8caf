-- ===== src/Http/Scripted.antt =====
-- A server whose whole response is written out and arrives at once: the interface can be met.
use rs_smarthome_nodes.Base.{
  ℕ, zero, suc, ◌≤◌, ◌<◌, ◌≡◌, refl, ap, sym, ◌∙◌, true, some, [], ◌∷◌, ◌++◌, take, drop, length,
  length-take, take-append-drop, arith,
}
use rs_smarthome_nodes.Base.Bytes.{Bytes}
use rs_smarthome_nodes.Http.Connection.{Connection}

inner : {a b : Bytes} → some a ≡ some b → a ≡ b
inner e = cc

pub took-le : (s : Bytes) (cap : ℕ) {b : Bytes} → some (take cap s) ≡ some b → length b ≤ cap
took-le s cap {b = b} e =
    omega (arith, length-take cap s, ap length (inner {a = take cap s} {b = b} e))

pub took-rest : (s : Bytes) (cap : ℕ) {b : Bytes} → some (take cap s) ≡ some b → s ≡ b ++ drop cap s
took-rest s cap {b = b} e =
    sym (take-append-drop cap s) ∙ ap (λ t. t ++ drop cap s) (inner {a = take cap s} {b = b} e)

pub took_end : (s : Bytes) (cap : ℕ) → 0 < cap → some (take cap s) ≡ some [] → s ≡ []
took_end [] cap h e = refl
took_end (x ∷ s) zero h e = absurd (omega arith)
took_end (x ∷ s) (suc cap) h e = absurd (cc)

abbrev pub scripted : Connection
scripted = record {
  Stream = Bytes;
  write_all = λ s b. (s, true);
  flush = λ s. (s, true);
  read = λ s cap. (drop cap s, some (take cap s));
  unread = λ s. s;
  read-le = took-le;
  read-unread = took-rest;
  read_end = took_end;
}
