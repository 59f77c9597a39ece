-- ===== src/Generate.antt =====
-- Generating rules (java/gazelle/generate.go). `Setting` has the arguments of `GenerateRules` and what it works out
-- of a directory, `Gather` collects files and imports, `Files` sorts the files and filters the imports, `Libraries`
-- and `TestRules` make single rules, `Modules` the libraries of a module, and `Protos`, `Resources`, `Production` and
-- `Testing` are the parts that `Rules` puts together. `Grows`, `Ends` and `Aligned` are about the rules and the inputs of
-- a whole run, `Declared` is about the classes of a generated library.
pub mod Files
pub mod Libraries
pub mod Modules
pub mod TestRules
pub mod Gather
pub mod Resources
pub mod Protos
pub mod Setting
pub mod Production
pub mod Testing
pub mod Rules
pub mod Grows
pub mod Ends
pub mod Aligned
pub mod Declared
