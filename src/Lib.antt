-- ===== src/Lib.antt =====
-- selftracked (a Go program) keeps the work of a repository, its epics, stories, tasks and
-- artifacts, in an SQLite database, and tracks a canonical text dump of it beside the code. This
-- library models the parts of it that carry its own logic, over texts as lists of UTF-8 bytes.
--
--  Ref        internal/ref/ref.go, with `pos0` of internal/verb/tasks.go and `canonicalEntity` of
--             internal/verb/relations.go: the references by which verbs name what they act on.
--  Dump       internal/dump/serialize.go: literals and rows; Dump.Tables: the tables and `Serialize`;
--             Dump.Header: `HeaderVersion`.
--  Load       internal/load/parse.go: literals, statements and data lines; Load.Document: the header and
--             `Parse`; Load.Steps: the registry and the migration of internal/load/steps.go.
--  Store      internal/schema/ddl.sql: the tables `epics`, `epic_criteria`, `tasks`, `task_links`,
--             `stories`, `worklog` and `events`, their constraints and triggers.
--  Stories    internal/verb/stories.go, internal/verb/terminal_epic.go and `mutateInTx` of
--             internal/verb/pipeline.go: the verbs on stories; Stories.Commands: their commands;
--             Stories.Offer: `StoryToOffer` of internal/rules/stories.go.
--  Worklog    internal/verb/worklog.go: `worklog add`.
--  Markdown   internal/verb/import_mdtable.go: the sections and tables of a corpus (Markdown.Tables),
--             their rows (Markdown.Rows), and what they make of the corpus (Markdown.Corpus).
--  Tasks      internal/verb/tasks.go: create, set-status, reopen, park and unpark (Tasks.Lifecycle), and
--             edit (Tasks.Edit).
--  Relations  internal/verb/relations.go: `rel add` with its walk for cycles, and `rel rm`.
--  Backlog    the commands of Tasks and Relations as steps on the database.
--  Epics      internal/verb/epics.go and internal/verb/criteria.go (Epics.Verbs), and
--             internal/verb/close_conditions.go (Epics.Blockers).
--  Rules      internal/rules/rules.go: the rules R4, R6, R7 and R8.
--  Decimal    strconv.ParseInt and the printing of integers.
--  Common     texts and the functions of package strings that the program calls, results, lists.
--
-- The serializer writes what the loader reads, and the loader's grammar is chosen by the version in
-- the header. A migration regroups what was read, runs the transforms and flattens the rows again.
--
-- A verb is a function from the store to the new store or a refusal. Its transaction reads the
-- tables, runs into the constraints and triggers of the schema, which are guards of the inserts and
-- updates here, and appends its events; a refusal leaves nothing behind. The rules are queries over
-- the same tables. The clock is an argument.
--
-- An operation of the source is a function by clauses with the name of the Go function in snake
-- case. A result `(value, error)` is `Result`; an error is a constructor that stands for the
-- wrapped message, so the texts of messages are not modelled. A position in a text is the rest of
-- the text. The loop of `parseLiterals` runs on fuel, one more than the length of the text; each
-- round reads at least a byte. The loop of `wouldCycle` runs on fuel, two more than the number of
-- links; each round takes a node off the frontier, and a node puts its links there once.
--
-- The SQL engine is a parameter: `Source` holds its answers to the queries that the serializer
-- asks, and the theorems name what they rely on as hypotheses. A Go map is a list of pairs that
-- holds a name once; in the cells of Markdown an assignment stands in front of the earlier ones,
-- which it hides. The transforms of a registry are a parameter as well, and so are the shell that
-- runs a criterion and the table of artifacts that R8 looks references up in. Files, processes,
-- clocks and the text of reports are not modelled.
pub mod Common
pub mod Decimal
pub mod Ref
pub mod Dump
pub mod Load
pub mod Store
pub mod Stories
pub mod Worklog
pub mod Tasks
pub mod Relations
pub mod Backlog
pub mod Epics
pub mod Markdown
pub mod Rules
