-- ===== src/Examples/Procs.antt =====
-- Text written to `vlc/tx`.
use ciot_vlc.Base.{◌≡◌, refl, none, some, [], ◌∷◌, ◌++◌, arith}
use ciot_vlc.VlcTx.Proc.{written, proc_write, proc_read}
use ciot_vlc.VlcTx.Proc.Value.{characters, proc_write-characters}
use ciot_vlc.VlcTx.Proc.RoundTrip.{readable, proc_write-proc_read}

-- 42 and a newline, before a byte that cannot be read.
proc_write-characters_example :
    proc_write (characters (4 ∷ 2 ∷ []) ++ (some 10 ∷ none ∷ [])) ≡ written 3 42
proc_write-characters_example =
    proc_write-characters (4 ∷ 2 ∷ []) (some 10 ∷ none ∷ []) (omega arith, (omega arith, tt))
      (refl, omega arith)

proc_write-proc_read_example : proc_write (readable (proc_read 70000)) ≡ written 5 70000
unfolding proc_read
proc_write-proc_read_example = proc_write-proc_read 70000 (omega arith)
