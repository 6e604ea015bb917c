-- ===== src/Plan.antt =====
-- src/iag/core/application_plan.py: the plans of an Application. The parts: values (Json), conditions
-- on facts (Condition), nodes (Node), the graph of their references (Graph), the stored book (Book),
-- its edits (Edit), what an evaluation reads (Watch), evaluation (Evaluate) and execution (Execute).
mod Json
mod Lifecycle
mod Condition
mod Node
mod Graph
mod Book
mod Edit
mod Watch
mod Evaluate
mod Decide
mod Substitute
mod Execute
mod Tests
