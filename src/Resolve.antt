-- ===== src/Resolve.antt =====
-- Resolution of imports to labels (java/gazelle/resolve.go, java/gazelle/resolve_associates.go). `Labels`
-- is about labels and attributes, `Exports` about the boundaries that java_export rules draw, `Package` and
-- `Classes` resolve one package and one class, `Attributes` fills one attribute of a rule, and
-- `Rules` resolves the whole rule.
--
-- Gazelle's index of rules, its resolve directives and its rules with their attributes are not part of the
-- repository: the first two are the parameter `Gazelle`, and a rule is what the program reads and sets of it.
pub mod Labels
pub mod Exports
pub mod Package
pub mod Classes
pub mod Attributes
pub mod Rules
