-- ===== src/Network/Mapped.antt =====
-- src/authz/network-guard.ts: the two spellings of an IPv4-mapped IPv6 address.
use shld.Prelude.{ℕ, ◌+◌, ◌*◌, List, ◌++◌}
use shld.Prelude.Text.{codes}
use shld.Network.Groups.{Groups}
use shld.Network.Octets.{Quad, dotted}

-- the groups of `::ffff:a.b.c.d`
abbrev pub mapped : Quad → Groups
mapped q = record {
  g0 = 0;
  g1 = 0;
  g2 = 0;
  g3 = 0;
  g4 = 0;
  g5 = 0xffff;
  g6 = q.a * 256 + q.b;
  g7 = q.c * 256 + q.d;
}

abbrev pub mapped_dotted : Quad → List ℕ
mapped_dotted q = codes "::ffff:" ++ dotted q
