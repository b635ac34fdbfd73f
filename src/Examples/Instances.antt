-- ===== src/Examples/Instances.antt =====
-- Stand-ins for a channel and for the text form of ids.
use Prim.Native.String.{String}
use mail_mcp.Base.{ℕ, zero, suc, ◌≡◌, refl, ap, parsed}
use mail_mcp.Base.Ids.{Ulid}
use mail_mcp.Approvals.{Oneshot, Recv, waiting, dropped, received}

abbrev pub channel : Oneshot
channel = record {
  Channel = Recv;
  fresh = waiting;
  send = λ o c. received o;
  drop = λ c. dropped;
  recv = λ c. c;
  recv-fresh = refl;
  recv-send = λ o c h. refl;
  recv-drop = λ c h. refl;
}

-- An id as so many strokes.
abbrev pub strokes : ℕ → String
strokes zero = String.[]
strokes (suc n) = String.◌∷◌ "i" (strokes n)

abbrev pub count_strokes : String → ℕ
count_strokes String.[] = 0
count_strokes (String.◌∷◌ c s) = suc (count_strokes s)

pub count_strokes-strokes : (n : ℕ) → count_strokes (strokes n) ≡ n
count_strokes-strokes zero = refl
count_strokes-strokes (suc n) = ap suc (count_strokes-strokes n)

abbrev pub ulid : Ulid
ulid = record {
  to_string = strokes;
  from_str = λ s. parsed (count_strokes s);
  from_str-to_string = λ n. ap parsed (count_strokes-strokes n);
}
