-- ===== src/Tables.antt =====
-- herdres_connector/rendering.py: the tables of a Markdown text and the splitter that keeps their
-- rows whole.
mod Lines
mod Cells
mod Blocks
mod Spans
mod Tiled
mod Plain
mod Examples
