-- ===== src/Examples/Tasks.antt =====
-- Runs of the theorems on the loading of tasks.
use func_sim_engine.Prelude.{
  ◌↔◌, ℕ, ◌+◌, ◌≡◌, refl, Bool, true, Option, none, some, [], ◌∷◌, ◌++◌, lit, str_eq, str_lt, arith,
}
use func_sim_engine.StdMap.{find, emplace, insert}
use func_sim_engine.Formula.{words, parse}
use func_sim_engine.Param.{parse_value}
use func_sim_engine.Param.Decimal.{parse_bool}
use func_sim_engine.Subprogram.{FunctionStorage}
use func_sim_engine.Tree.{Tree, node, end, Site, new_site, find_child}
use func_sim_engine.Loader.{Classes, Loading, loaded, refused, crashed, assemble, is_block_type}
use func_sim_engine.Loader.Assembly.Uses.{Fresh}
use func_sim_engine.Loader.Nodes.Blocks.{decode_block}
use func_sim_engine.Loader.Nodes.Blocks.Linked.{decode_block_linked}
use func_sim_engine.Loader.Nodes.Blocks.Enough.{levels, decode_block_enough}
use func_sim_engine.Loader.Task.{System, Kernel, Task, task, load}
use func_sim_engine.Loader.Config.{Files, CommandLine, ready, find_conf_file, Config, config}
use func_sim_engine.Loader.Config.Ready.{HoldsFor, config-Holds}
use func_sim_engine.Loader.Config.Reached.{IsSetUp, run_of, task_to_run_iff}
use func_sim_engine.Instruction.{no_error}
use func_sim_engine.Dispatcher.{Dispatcher, run_steps}
use func_sim_engine.Program.{World, Parts, environment, new_dispatcher, dispatcher_of}
use func_sim_engine.Program.Linked.{IsSound, program-Deep}
use func_sim_engine.Examples.{bits}
use func_sim_engine.Examples.Trees.{machine}
use func_sim_engine.Examples.Documents.{
  Doc, Fields, text, items, fields, no_docs, no_fields, field, documents, depth, documents-IsNested,
}

abbrev flag_doc : Fields → Doc
flag_doc more = fields (
    field (lit "тип") (text (lit "лог"))
      (field (lit "значение") (text (lit "1")) (field (lit "описание") (text (lit "a flag")) more)))

abbrev block_doc : Fields → Doc
block_doc more = fields (
    field (lit "класс") (text []) (
      field (lit "тип") (text (lit "периодический")) (
        field (lit "период") (text (lit "1")) (
          field (lit "приоритет") (text (lit "1"))
            (field (lit "блокировкаВСтопе") (text (lit "да")) more)))))

-- A block that uses a variable of the block above it.
abbrev pump_doc : Doc
pump_doc =
    block_doc
      (field (lit "переменные") (fields (field (lit "a") (flag_doc no_fields) no_fields)) no_fields)

abbrev plant_doc : Doc
plant_doc = block_doc (
    field (lit "переменные")
      (fields (
        field (lit "a")
          (flag_doc (
            field (lit "назначение") (fields (field (lit "блок") (text (lit "c")) no_fields))
              no_fields))
          no_fields))
      (field (lit "блоки") (fields (field (lit "c") pump_doc no_fields)) no_fields))

-- No class has anything to join.
abbrev pub plain_classes : Classes Bool
plain_classes = record { create = λ name. none; join = λ c s. loaded s }

abbrev pub empty_storage : FunctionStorage Bool ℕ
empty_storage = []

pub plain_keeps :
    (c : Option ℕ) (s s' : Site Bool) → plain_classes.join c s ≡ loaded s' → s'.block ≡ s.block
plain_keeps c s s' h = cc

abbrev tree_or : Tree Bool → Loading (Tree Bool) → Tree Bool
tree_or d (loaded t) = t
tree_or d (refused e) = d
tree_or d crashed = d

abbrev nowhere : Tree Bool
nowhere = node (new_site 0 none [] []) end

abbrev read : ℕ → Loading (Tree Bool)
read fuel = decode_block documents (λ n. plain_classes) empty_storage (λ n. 0) fuel plant_doc

abbrev plant : Tree Bool
plant = tree_or nowhere (read 9)

plant_loaded : read 9 ≡ loaded plant
unfolding decode_block assemble str_eq find emplace insert find_child str_lt parse is_block_type
    parse_value parse_bool words
plant_loaded = refl

decode_block_linked_example : Fresh plant
decode_block_linked_example =
    decode_block_linked documents (λ n. plain_classes) empty_storage (λ n. 0) (λ n. plain_keeps) 9
      plant_doc plant plant_loaded

decode_block_enough_example :
    read 9
    ≡ levels documents
        (λ n. plain_classes)
        empty_storage
        (λ n. 0)
        20
        (λ n. loaded nowhere)
        plant_doc
decode_block_enough_example =
    decode_block_enough documents (λ n. plain_classes) empty_storage (λ n. 0) depth
      documents-IsNested 9 20 (λ n. loaded nowhere) plant_doc (unfold depth in omega arith)
      (unfold depth in omega arith)

-- A disk with one task in the current directory.
abbrev disk : Files
disk = record {
  is_directory = λ d. some true;
  is_regular_file = λ f. some true;
  path_in = λ d f. d ++ f;
  absolute = λ f. f;
  task_options = λ f name.
      some
        (record { path = lit "plant"; description = lit "a plant"; port = none; sigcount = none });
}

abbrev task_doc : Doc
task_doc =
    fields (field (lit "библиотеки") (items no_docs) (field (lit "задача") plant_doc no_fields))

abbrev system : System Doc Bool Bool ℕ
system = record {
  dlopen = λ f w. (some true, w + 1);
  dlsym = λ h f. some true;
  init = λ f w. w + 1;
  file_in = λ d f. d ++ f;
  load_file = λ f. some task_doc;
}

abbrev kernel : Kernel Doc Bool ℕ ℕ
kernel = record {
  add_std_block_classes = λ w. w;
  classes = λ w n. plain_classes;
  storage = λ w. empty_storage;
  start = λ w n. 0;
}

abbrev line : Option CommandLine
line = some (record { taskname = lit "plant"; search_paths = [] })

config-Holds_example : HoldsFor (config disk documents kernel system 9 line 0).0
config-Holds_example = config-Holds documents kernel 9 (λ v n. plain_keeps) system disk line 0

abbrev task_or : Task Bool → Loading (Task Bool) → Task Bool
task_or d (loaded t) = t
task_or d (refused e) = d
task_or d crashed = d

abbrev fresh_task : Task Bool
fresh_task = task (lit "plant") 8001 2 (lit "a plant")

abbrev plant_task : Task Bool
plant_task = task_or fresh_task (load documents kernel 9 system fresh_task 0).0

task_to_run_iff_example :
    (run_of disk documents kernel system 9 (lit "plant") [] 0 ≡ some plant_task)
    ↔ IsSetUp disk documents kernel system 9 (lit "plant") [] 0 plant_task
task_to_run_iff_example =
    task_to_run_iff disk documents kernel system 9 (lit "plant") [] 0 plant_task

abbrev ready_config : Config Bool
ready_config = record {
  taskname = lit "plant";
  search_paths = lit "." ∷ [];
  task = some plant_task;
  stage = ready;
}

becomes_ready : (config disk documents kernel system 9 line 0).0 ≡ some ready_config
unfolding config find_conf_file decode_block assemble str_eq find emplace insert find_child str_lt
    parse is_block_type parse_value parse_bool words load task
becomes_ready = refl

-- Instructions without parameters.
abbrev parts : Parts Bool ℕ
parts = record {
  show = λ d. lit "1";
  seconds = λ s. true;
  machine = machine;
  parse = λ s. record { name = s; param = []; error_code = no_error };
}

abbrev block_or : Tree Bool → Option (Tree Bool) → Tree Bool
block_or d none = d
block_or d (some t) = t

abbrev started : Dispatcher Bool (World Bool ℕ)
started =
    new_dispatcher parts (block_or nowhere plant_task.main_block) 10 2 ((lit "halt" ∷ []) ∷ []) 5

starts : dispatcher_of parts (λ d. 10) ready_config ((lit "halt" ∷ []) ∷ []) 5 ≡ some started
unfolding dispatcher_of decode_block assemble str_eq find emplace insert find_child str_lt parse
    is_block_type parse_value parse_bool words load task
starts = refl

program-Deep_example : IsSound (run_steps (environment parts) 3 started).0.world
program-Deep_example =
    program-Deep parts disk documents kernel system 9 (λ v n. plain_keeps) line 0 ready_config
      (λ d. 10) ((lit "halt" ∷ []) ∷ []) 5 started 3 becomes_ready starts
