-- ===== src/Tests/Phases.antt =====
-- A query step by step.
use relay_dev.Common.{
  ℕ, ◌+◌, ◌≤◌, ◌≡◌, ◌⊎◌, refl, List, [], ◌∷◌, ◌++◌, map, some, arith, length, ok,
}
use mathlib.Core.List.{Nodup}
use relay_dev.Text.{Bytes, codes}
use relay_dev.Pool.{new_pool, fill, take_front, get_connection}
use relay_dev.Output.Csv.{write_relay}
use relay_dev.Output.Csv.Rows.{AreFree-Lacks}
use relay_dev.Output.Csv.Stream.{pieces, overwrite}
use relay_dev.Server.{query}
use relay_dev.Server.Writes.{IsFit, Writes}
use relay_dev.Server.Phases.{
  Phase, saving, Query, Work, Floor, arrive, open_file, flush, close, Advances, OneWriter, here,
  next,
}
use relay_dev.Server.Phases.Writing.{Advances-file}
use relay_dev.Server.Phases.Loans.{Advances-apart}
use relay_dev.Tests.Samples.{with_netlist, netlist_lines}
use relay_dev.Tests.Conversions.{result, relay_row, convert-result}

abbrev of : ℕ → Query ℕ
of q = record { outside = with_netlist; bom_path = codes "bom"; netlist_path = [] }

abbrev fresh : Floor ℕ ℕ
fresh = record { pool = new_pool 1; db = 0; content = []; works = [] }

abbrev written : Bytes
written = write_relay relay_row ++ []

-- The work on the one query, in its phases.
abbrev work : Phase → List (Work ℕ)
work phase = record { query = 7; conn = 0; phase = phase } ∷ []

abbrev saved : Floor ℕ ℕ
saved = record {
  pool = record { pool = []; active_connections = 0; pool_size = 1; created = 1 };
  db = 0;
  content = overwrite 0 written [];
  works = work (saving result);
}

written-pieces : pieces result.relay.relay_amount 0 result.relay ≡ ok (written ∷ [])
unfolding pieces
written-pieces = refl

step_by_step : Advances of OneWriter fresh saved
unfolding new_pool fill get_connection take_front
step_by_step =
    next
      (next
        (next (next here (arrive 7 refl) (omega arith))
          (open_file 7 0 result (written ∷ []) [] [] refl convert-result refl written-pieces)
          (omega arith))
        (flush 7 0 result 0 written [] [] [] refl) (omega arith))
      (close 7 0 result (0 + length written) [] [] refl) (omega arith)

fits : (q : ℕ) → IsFit (of q).outside (query (of q).bom_path (of q).netlist_path)
unfolding relay_dev.Text.equal
fits q = (AreFree-Lacks b',' netlist_lines refl, AreFree-Lacks b'\n' netlist_lines refl)

Advances-file_example :
    (saved.content ≡ [])
    ⊎ ((q : ℕ) × Writes
          (of q).outside
          (query (of q).bom_path (of q).netlist_path)
          (some saved.content))
Advances-file_example = Advances-file of fresh saved refl fits step_by_step refl

Advances-apart_example :
    (length saved.works ≤ 1 + 1) × Nodup (saved.pool.pool ++ map (λ w. w.conn) saved.works)
Advances-apart_example = Advances-apart of 1 refl refl step_by_step
