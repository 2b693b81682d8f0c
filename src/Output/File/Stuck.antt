-- ===== src/Output/File/Stuck.antt =====
-- A data file that could not be opened, in src/modules/output/file/file_output.c.
use mmt_probe.Base.{◌≡◌, refl, Bool, false, List, [], ◌∷◌, ◌++◌, Option, some, ◌>>=◌}
use mmt_probe.Base.Bytes.{Bytes}
use mmt_probe.Output.File.{
  FileConf, FileOutput, Answers, Action, file_output_flush, file_output_write,
}

-- The calls of the owner of an output, with what the system answers.
pub data Operation : Type 0 where
  write : Bytes → Operation
  flush : Bytes → Bool → Answers → Operation

pub operate : FileConf → Operation → FileOutput → Option (List Action × FileOutput)
operate config (write message) output = some (file_output_write output message)
operate config (flush memory sem_opens a) output =
    file_output_flush config memory sem_opens a output

abbrev pub operate_all : FileConf → List Operation → FileOutput → Option (List Action × FileOutput)
operate_all config [] output = some ([], output)
operate_all config (op ∷ ops) output = do
  (first, next) ← operate config op output
  (others, last) ← operate_all config ops next
  some (first ++ others, last)

operate-closed :
    (config : FileConf) (op : Operation) (output : FileOutput)
    → output.is_open ≡ false
    → operate config op output ≡ some ([], output)
unfolding operate file_output_write file_output_flush
operate-closed config (write message) output h = rw h refl
operate-closed config (flush memory sem_opens a) output h = rw h refl

-- An output whose file could not be opened never opens one again: no sequence of writes and
-- flushes asks anything of the system or changes the output.
pub operate_all-closed :
    (config : FileConf) (ops : List Operation) (output : FileOutput)
    → output.is_open ≡ false
    → operate_all config ops output ≡ some ([], output)
operate_all-closed config [] output h = refl
operate_all-closed config (op ∷ ops) output h =
    rw (operate-closed config op output h, operate_all-closed config ops output h) refl
